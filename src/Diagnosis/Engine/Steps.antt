-- ===== src/Diagnosis/Engine/Steps.antt =====
-- diagnosis/engine.go, Diagnose: its smaller steps.
use amp_sentinel.Prelude.{
  ℕ, ◌-◌, ◌/◌, ltb, Bool, true, false, not, ◌&&◌, List, [], ◌∷◌, Option, none, some, if◌then◌else◌,
}
use amp_sentinel.Prelude.Int.{ℤ, pos, negsuc}
use amp_sentinel.Prelude.Text.{Text, utf8, is_empty}
use amp_sentinel.Intake.Event.{RawEvent}
use amp_sentinel.Amp.Types.{ExecuteOption}
use amp_sentinel.Amp.Permission.{read_only_permissions}
use amp_sentinel.Effects.{session_log, World, Action, pure, ◌>>=◌, gets, perform}
use amp_sentinel.Project.Registry.{Project}
use amp_sentinel.Project.Sources.{path_text, commit_hash, has_changes, reset_changes}
use amp_sentinel.Skill.Types.{McpServerConfig}
use amp_sentinel.Skill.Manager.{Manager, resolve, mcp_config}
use amp_sentinel.Diagnosis.Paths.{FilePath}
use amp_sentinel.Diagnosis.Heuristics.{session_name}
use amp_sentinel.Diagnosis.Engine.{FingerprintLookup, Engine, second, Seen}

-- `Unix()` of a moment: the seconds from 1970 on, where the model counts from year 1.
abbrev unix_epoch : ℕ
unix_epoch = 62135596800

unfoldable pub unix_seconds : ℕ → ℤ
unix_seconds now =
    let seconds = now / second in
    if ltb seconds unix_epoch then negsuc (unix_epoch - seconds - 1) else pos (seconds - unix_epoch)

module _ (world : World) (engine : Engine) where
  -- `commitHash, _ = e.sources.CommitHash(...)`
  unfoldable pub commit_or_empty : Text → Action Text
  commit_or_empty key = do
    hash ← commit_hash world engine.base_dir key
    pure (elim hash [ none ↦ [] | some h ↦ h ])

  unfoldable pub active_lookup : Option FingerprintLookup
  active_lookup = if engine.fp_config.enabled then engine.fingerprint_lookup else none

  -- Step 6: a check that fails counts as a change; a change is undone.
  unfoldable pub mark_tainted : Option Bool → Text → Action Bool
  mark_tainted none key = pure true
  mark_tainted (some false) key = pure false
  mark_tainted (some true) key = do undone ← reset_changes world engine.base_dir key; pure true

  unfoldable pub check_tainted : Text → Action Bool
  check_tainted key = do changed ← has_changes world engine.base_dir key; mark_tainted changed key

  -- The session log, if it can be made.
  unfoldable pub open_log : RawEvent → Project → Action (Option Text)
  open_log event proj = gets (λ tr.
      let name = session_name event.id proj.key (unix_seconds (world.now tr)) in
      if not (is_empty engine.session_dir) && world.opens_log tr name then some name else none)

  unfoldable pub close_log : Option Text → Seen → Action (Unit {0})
  close_log none seen = pure tt
  close_log (some name) seen = perform (session_log name seen.session)

  -- The option of the run in a checkout.
  unfoldable pub servers_of : Option Manager → List Text → List (Text × McpServerConfig)
  servers_of none skills = []
  servers_of (some m) skills = (mcp_config m (resolve m skills)).0

  unfoldable pub run_option : Project → RawEvent → FilePath → ExecuteOption
  run_option proj event src_dir = record {
    work_dir = path_text src_dir;
    mode = engine.mode;
    permissions = read_only_permissions;
    mcp_servers = servers_of engine.skill_mgr proj.skills;
    labels = utf8 "sentinel" ∷ proj.key ∷ event.severity ∷ [];
    thinking = false;
  }
