-- ===== src/Diagnosis/Engine.antt =====
-- diagnosis/engine.go: the engine, its configuration and NewEngine.
use amp_sentinel.Prelude.{
  ℕ, ◌+◌, ◌-◌, ◌*◌, suc, Bool, ◌&&◌, List, [], ◌∷◌, Option, length, leb, if◌then◌else◌,
}
use amp_sentinel.Prelude.Int.{ℤ, pos, negsuc, leb_ℤ}
use amp_sentinel.Prelude.Text.{Text, utf8, is_empty}
use amp_sentinel.Amp.Types.{StreamMessage}
use amp_sentinel.Amp.Client.{ExecuteError}
use amp_sentinel.Effects.{Trace}
use amp_sentinel.Project.Registry.{Registry}
use amp_sentinel.Skill.Manager.{Manager}
use amp_sentinel.Diagnosis.Report.{Report}
pub mod Messages
pub mod Steps
pub mod Diagnose
pub mod Guarded
pub mod Reports
pub mod Sound
pub mod Failures

-- A search of the store; nothing stands for an error.
abbrev pub FingerprintLookup : Type 0
FingerprintLookup = Trace → Text → Text → ℕ → Option (Option Report)

pub record FingerprintConfig : Type 0 where
  pub enabled : Bool
  pub window : ℤ
  pub min_score : ℤ
  pub default_dedup_fields : List Text

pub record EngineConfig : Type 0 where
  pub mode : Text
  pub session_dir : Text
  pub structured_output : Bool
  pub json_fixer_enabled : Bool
  pub prompt_version : Text
  pub fingerprint_lookup : Option FingerprintLookup
  pub fingerprint_config : FingerprintConfig

-- `base_dir` is the source manager's.
pub record Engine : Type 0 where
  pub base_dir : Text
  pub registry : Registry
  pub skill_mgr : Option Manager
  pub mode : Text
  pub session_dir : Text
  pub structured_output : Bool
  pub json_fixer_enabled : Bool
  pub prompt_version : Text
  pub fingerprint_lookup : Option FingerprintLookup
  pub fp_config : FingerprintConfig

abbrev pub or_default : Text → Text → Text
or_default s d = if is_empty s then d else s

abbrev pub second : ℕ
second = 1000000000

unfoldable pub fp_defaults : FingerprintConfig → FingerprintConfig
fp_defaults c = record c {
  window =
      if leb_ℤ c.window (pos 0) && leb_ℤ (pos 0) c.window
      then pos (24 * 3600 * second)
      else c.window;
  min_score = if leb_ℤ c.min_score (pos 0) then pos 80 else c.min_score;
  default_dedup_fields =
      if leb (length c.default_dedup_fields) 0
      then utf8 "error_msg" ∷ utf8 "error" ∷ utf8 "message" ∷ utf8 "msg" ∷ []
      else c.default_dedup_fields;
}

unfoldable pub new_engine : Text → Registry → Option Manager → EngineConfig → Engine
new_engine base_dir registry skill_mgr cfg = record {
  base_dir = base_dir;
  registry = registry;
  skill_mgr = skill_mgr;
  mode = or_default cfg.mode (utf8 "smart");
  session_dir = cfg.session_dir;
  structured_output = cfg.structured_output;
  json_fixer_enabled = cfg.json_fixer_enabled;
  prompt_version = or_default cfg.prompt_version (utf8 "v1");
  fingerprint_lookup = cfg.fingerprint_lookup;
  fp_config = fp_defaults cfg.fingerprint_config;
}

-- `time.Now().Add(-window)`
unfoldable pub before : ℕ → ℤ → ℕ
before now (pos w) = now - w
before now (negsuc w) = now + suc w

pub data DiagnoseError : Type 0 where
  project_lookup source_prepare : DiagnoseError
  amp_execution : ExecuteError → DiagnoseError

pub data Outcome : Type 0 where
  ok : Report → Outcome
  err : DiagnoseError → Outcome

-- What the callback of the run gathers: the skills that were used, and the lines of the session log.
pub record Seen : Type 0 where
  pub skills : List Text
  pub session : List StreamMessage
