-- ===== src/Amp/Client.antt =====
-- amp/client.go: the arguments of the command, and Execute over what the process does.
use amp_sentinel.Prelude.{
  Bool, true, false, ◌&&◌, ◌||◌, List, [], ◌∷◌, ◌++◌, Option, none, some, length, ltb,
  if◌then◌else◌,
}
use amp_sentinel.Prelude.Text.{Text, utf8, text_eq, is_empty, one_of}
use amp_sentinel.Amp.Types.{ContentBlock, StreamMessage, ExecuteOption, ExecuteResult}

-- A line of the output: nothing for an empty line and for one that is no JSON.
abbrev pub Line : Type 0
Line = Option StreamMessage

-- What the settings file, the pipe, the process and its output do.
pub record Process : Type 0 where
  pub settings_fails : Bool
  pub pipe_fails : Bool
  pub start_fails : Bool
  pub lines : List Line
  pub scan_fails : Bool
  pub exit_fails : Bool

-- The errors that Execute returns; that of a cancelled context is one of an exit.
pub data ExecuteError : Type 0 where
  settings_file pipe start handler scanner exit : ExecuteError

unfoldable pub empty_result : ExecuteResult
empty_result = record {
  session_id = [];
  result = [];
  error = [];
  is_error = false;
  duration_ms = 0;
  num_turns = 0;
  usage = none;
  tools_used = [];
}

unfoldable pub needs_settings : ExecuteOption → Bool
needs_settings opt = ltb 0 (length opt.permissions) || ltb 0 (length opt.mcp_servers)

unfoldable pub label_args : List Text → List Text
label_args [] = []
label_args (l ∷ ls) = utf8 "--label" ∷ l ∷ label_args ls

unfoldable pub build_args : Text → ExecuteOption → Text → List Text
build_args prompt opt settings_path =
    (utf8 "--execute" ∷ prompt ∷ utf8 "--stream-json" ∷ [])
    ++ ((if is_empty settings_path then [] else utf8 "--settings-file" ∷ settings_path ∷ [])
        ++ ((if is_empty opt.mode then [] else utf8 "--mode" ∷ opt.mode ∷ [])
            ++ ((if opt.thinking then utf8 "--stream-json-thinking" ∷ [] else [])
                ++ label_args opt.labels)))

-- A set of texts: `m[s] = struct{}{}`.
unfoldable pub add_text : Text → List Text → List Text
add_text s set = if one_of set s then set else set ++ s ∷ []

unfoldable pub is_tool_use : ContentBlock → Bool
is_tool_use b = text_eq b.type (utf8 "tool_use")

unfoldable pub add_tools : List ContentBlock → List Text → List Text
add_tools [] set = set
add_tools (b ∷ bs) set = add_tools bs (if is_tool_use b then add_text b.name set else set)

unfoldable pub add_tools_of : Option (List ContentBlock) → List Text → List Text
add_tools_of none set = set
add_tools_of (some blocks) set = add_tools blocks set

-- `switch msg.Type`, on the result and the set of tools.
unfoldable pub handle_message :
    StreamMessage → ExecuteResult × List Text → ExecuteResult × List Text
handle_message msg (r, tools) =
    if text_eq msg.type (utf8 "system")
    then (if text_eq msg.subtype (utf8 "init")
        then (record r { session_id = msg.session_id }, tools)
        else (r, tools))
    else if text_eq msg.type (utf8 "assistant")
    then (r, add_tools_of msg.message tools)
    else if text_eq msg.type (utf8 "result")
    then (
      record r {
        is_error = msg.is_error;
        duration_ms = msg.duration_ms;
        num_turns = msg.num_turns;
        usage = msg.usage;
        error = if msg.is_error then msg.error else r.error;
        result = if msg.is_error then r.result else msg.result;
      },
      tools,
    )
    else (r, tools)

module _ {S : Type 0} (on_message : StreamMessage → S → Option S) where
  -- What the loop over the lines leaves: the result, the tools, the callback's state, and whether the callback failed.
  pub record Progress : Type 0 where
    pub result : ExecuteResult
    pub tools : List Text
    pub seen : S
    pub handler_failed : Bool

  abbrev pub advance : StreamMessage → Progress → Option S → Progress
  advance msg p after =
      let (r, tools) = handle_message msg (p.result, p.tools) in
      elim after [
        | none ↦ record p { result = r; tools = tools; handler_failed = true }
        | some s ↦ record p { result = r; tools = tools; seen = s }
      ]

  unfoldable pub read_lines : List Line → Progress → Progress
  read_lines [] p = p
  read_lines (none ∷ lines) p = read_lines lines p
  read_lines (some msg ∷ lines) p =
      let q = advance msg p (on_message msg p.seen) in
      let rest = read_lines lines q in if q.handler_failed then q else rest

  unfoldable pub start_of : S → Progress
  start_of s = record { result = empty_result; tools = []; seen = s; handler_failed = false }

  unfoldable pub with_tools : Progress → ExecuteResult
  with_tools p = let r = p.result in record r { tools_used = p.tools }

  -- The end of Execute. The callback's state is there after an error too.
  unfoldable pub finish : Progress → Bool → Bool → Option ExecuteError × ExecuteResult
  finish p scan_fails exit_fails =
      if p.handler_failed
      then (some handler, p.result)
      else if scan_fails && is_empty p.result.result && is_empty p.result.error
      then (some scanner, p.result)
      else if exit_fails
      then (some exit, with_tools p)
      else (none, with_tools p)

  -- Execute: the error if there is one, the result, and the state of the callback.
  unfoldable pub execute : Process → ExecuteOption → S → Option ExecuteError × ExecuteResult × S
  execute proc opt s =
      let p = read_lines proc.lines (start_of s) in
      let (err, r) = finish p proc.scan_fails proc.exit_fails in
      if needs_settings opt && proc.settings_fails
      then (some settings_file, empty_result, s)
      else if proc.pipe_fails
      then (some pipe, empty_result, s)
      else if proc.start_fails
      then (some start, empty_result, s)
      else (err, r, p.seen)
