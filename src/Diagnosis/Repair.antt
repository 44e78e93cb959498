-- ===== src/Diagnosis/Repair.antt =====
-- diagnosis/structured.go: the local fixes of an answer that is not quite JSON. Each loop is its step
-- on the loop's variables, folded over the bytes; `s += string(stack[i])` writes the top first.
pub mod Brackets
pub mod Closing
pub mod Commas
pub mod Objects
pub mod Grammar
use amp_sentinel.Prelude.{
  ℕ, ◌+◌, ◌-◌, Bool, true, false, not, ◌&&◌, ◌||◌, List, [], ◌∷◌, ◌++◌, Option, none, some, ltb,
  leb, ◌==◌, if◌then◌else◌,
}
use amp_sentinel.Prelude.Text.{Text, is_empty}
use amp_sentinel.Prelude.Runes.{Rune, decode, trim_space}

-- `inString` and `escaped`.
pub record Quote : Type 0 where
  pub in_string : Bool
  pub escaped : Bool

abbrev pub outside : Quote
outside = record { in_string = false; escaped = false }

-- The start of every loop body: an escaped byte, an escape inside a string, a quote, any other.
unfoldable pub quote_step : Quote → ℕ → Quote
quote_step q c =
    if q.escaped
    then record q { escaped = false }
    else if c == b'\\' && q.in_string
    then record q { escaped = true }
    else if c == b'"'
    then record q { in_string = not q.in_string }
    else q

-- The loop body goes on past these tests, and past `if inString`.
unfoldable pub is_structural : Quote → ℕ → Bool
is_structural q c =
    not q.escaped && not (c == b'\\' && q.in_string) && not (c == b'"') && not q.in_string

pub record Scan : Type 0 where
  pub quote : Quote
  pub stack : List ℕ

-- `stack[len(stack)-1] == c`, and the stack without its top.
unfoldable pub pop_match : List ℕ → ℕ → List ℕ
pop_match [] c = []
pop_match (top ∷ stack) c = if top == c then stack else top ∷ stack

unfoldable pub bracket_step : List ℕ → ℕ → List ℕ
unfolding pop_match
bracket_step stack c =
    if c == b'{'
    then b'}' ∷ stack
    else if c == b'['
    then b']' ∷ stack
    else if c == b'}' || c == b']'
    then pop_match stack c
    else stack

unfoldable pub scan_step : Scan → ℕ → Scan
unfolding quote_step is_structural bracket_step
scan_step s c = record {
  quote = quote_step s.quote c;
  stack = if is_structural s.quote c then bracket_step s.stack c else s.stack;
}

unfoldable pub scan : Scan → Text → Scan
unfolding scan_step
scan st [] = st
scan st (c ∷ s) = scan (scan_step st c) s

abbrev pub scan_start : Scan
scan_start = record { quote = outside; stack = [] }

unfoldable pub balance_brackets : Text → Text
unfolding scan
balance_brackets s = s ++ (scan scan_start s).stack

-- The loop over the runes in `fixUnterminatedString`, which looks at quotes only.
unfoldable pub quote_runes : Quote → List Rune → Quote
unfolding quote_step
quote_runes q [] = q
quote_runes q (r ∷ rs) = quote_runes (quote_step q r.value) rs

unfoldable pub close_string : Text → Text
close_string s = if (quote_runes outside (decode s)).in_string then s ++ b'"' ∷ [] else s

unfoldable pub fix_unterminated_string : Text → Text
fix_unterminated_string s =
    let t = trim_space s in if is_empty t then t else balance_brackets (close_string t)

unfoldable pub skip_blanks : Text → Text
skip_blanks [] = []
skip_blanks (c ∷ s) =
    let rest = skip_blanks s in
    if c == b' ' || c == b'\t' || c == b'\n' || c == b'\r' then rest else c ∷ s

unfoldable pub starts_closer : Text → Bool
starts_closer [] = false
starts_closer (c ∷ s) = c == b'}' || c == b']'

-- Is the comma that stands before `s` left out?
unfoldable pub is_trailing : Quote → ℕ → Text → Bool
is_trailing q c s = is_structural q c && c == b',' && starts_closer (skip_blanks s)

unfoldable pub fix_commas : Quote → Text → Text
fix_commas q [] = []
fix_commas q (c ∷ s) =
    let rest = fix_commas (quote_step q c) s in if is_trailing q c s then rest else c ∷ rest

unfoldable pub fix_trailing_comma : Text → Text
fix_trailing_comma = fix_commas outside

-- `raw[start:]` for the first `{`, or nothing.
unfoldable pub from_brace : Text → Text
from_brace [] = []
from_brace (c ∷ s) = let rest = from_brace s in if c == b'{' then c ∷ s else rest

unfoldable pub depth_step : Quote → ℕ → ℕ → ℕ
unfolding is_structural
depth_step q d c =
    if is_structural q c then (if c == b'{' then d + 1 else if c == b'}' then d - 1 else d) else d

-- The bytes up to the brace that takes the depth back to 0, or all. The depth is at least 1 behind
-- the first brace, so `depth--` does not pass 0.
unfoldable pub take_object : Quote → ℕ → Text → Text
take_object q d [] = []
take_object q d (c ∷ s) =
    let rest = take_object (quote_step q c) (depth_step q d c) s in
    if is_structural q c && c == b'}' && depth_step q d c == 0 then c ∷ [] else c ∷ rest

unfoldable pub extract_json_object : Text → Text
extract_json_object raw = take_object outside 0 (from_brace raw)
