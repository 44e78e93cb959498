-- ===== src/Diagnosis/Engine/Messages.antt =====
-- diagnosis/engine.go, Diagnose: the callback of a run of the agent.
use amp_sentinel.Prelude.{Bool, List, [], ◌∷◌, ◌++◌, Option, none, some, if◌then◌else◌}
use amp_sentinel.Prelude.Text.{Text, utf8, text_eq}
use amp_sentinel.Amp.Types.{StreamMessage, ContentBlock}
use amp_sentinel.Amp.Client.{is_tool_use, add_text}
use amp_sentinel.Diagnosis.Heuristics.{contains_skill}
use amp_sentinel.Diagnosis.Engine.{Seen}

-- `to_lower` is strings.ToLower.
module _ (to_lower : Text → Text) where
  -- `skillsUsed[skill] = struct{}{}` for each skill that the block's tool belongs to.
  unfoldable pub use_skills : Text → List Text → List Text → List Text
  use_skills tool [] used = used
  use_skills tool (s ∷ skills) used =
      use_skills tool skills (if contains_skill to_lower tool s then add_text s used else used)

  unfoldable pub skills_of : List Text → List ContentBlock → List Text → List Text
  skills_of skills [] used = used
  skills_of skills (b ∷ blocks) used =
      skills_of skills blocks (if is_tool_use b then use_skills b.name skills used else used)

  unfoldable pub skills_of_message : List Text → Option (List ContentBlock) → List Text → List Text
  skills_of_message skills none used = used
  skills_of_message skills (some blocks) used = skills_of skills blocks used

  -- The callback; `logs` says whether there is a session log.
  unfoldable pub on_message : List Text → Bool → StreamMessage → Seen → Option Seen
  on_message skills logs msg seen = some (record {
    skills =
        if text_eq msg.type (utf8 "assistant")
        then skills_of_message skills msg.message seen.skills
        else seen.skills;
    session = if logs then seen.session ++ msg ∷ [] else seen.session;
  })
