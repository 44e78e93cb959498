-- ===== src/Diagnosis/Fixer.antt =====
-- diagnosis/fixer.go: RunJSONFixer, one run of the agent in the program's own directory, and without permission rules.
use amp_sentinel.Prelude.{[], Option, none, some, false, if◌then◌else◌}
use amp_sentinel.Prelude.Text.{Text, utf8}
use amp_sentinel.Amp.Types.{StreamMessage, ExecuteOption, ExecuteResult}
use amp_sentinel.Amp.Client.{ExecuteError, execute}
use amp_sentinel.Effects.{run_agent, World, Action, pure, ◌>>=◌, ◌>>◌, gets, perform}
use amp_sentinel.Diagnosis.Types.{DiagnosisJson}
use amp_sentinel.Diagnosis.Parse.{parse_diagnosis_json}

unfoldable pub fixer_option : ExecuteOption
fixer_option = record {
  work_dir = [];
  mode = utf8 "rush";
  permissions = [];
  mcp_servers = [];
  labels = [];
  thinking = false;
}

-- The callback that is nil.
abbrev pub ignore_message : StreamMessage → Unit {0} → Option (Unit {0})
ignore_message msg s = some s

module _ (world : World) (unmarshal : Text → Option DiagnosisJson) where
  -- What is made of a run; `none` is an error.
  unfoldable pub fixed_answer :
      Option ExecuteError × ExecuteResult × Unit {0} → Option DiagnosisJson
  fixed_answer (some e, result, s) = none
  fixed_answer (none, result, s) =
      if result.is_error then none else parse_diagnosis_json unmarshal result.result

  unfoldable pub run_json_fixer : Action (Option DiagnosisJson)
  run_json_fixer = do
    proc ← gets world.process
    perform (run_agent fixer_option.work_dir fixer_option.permissions)
    pure (fixed_answer (execute ignore_message proc fixer_option tt))
