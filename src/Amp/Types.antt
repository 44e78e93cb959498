-- ===== src/Amp/Types.antt =====
-- amp/types.go, amp/client.go: the data of a run of the Amp command. Of a message the fields that the program reads.
use amp_sentinel.Prelude.{ℕ, Bool, List, Option}
use amp_sentinel.Prelude.Text.{Text}
use amp_sentinel.Skill.Types.{McpServerConfig}

pub record Usage : Type 0 where
  pub input_tokens : ℕ
  pub output_tokens : ℕ

pub record ContentBlock : Type 0 where
  pub type : Text
  pub name : Text

-- `message` is the content of the inner message, if there is one.
pub record StreamMessage : Type 0 where
  pub type : Text
  pub subtype : Text
  pub session_id : Text
  pub message : Option (List ContentBlock)
  pub is_error : Bool
  pub result : Text
  pub error : Text
  pub duration_ms : ℕ
  pub num_turns : ℕ
  pub usage : Option Usage

-- `mcp_servers` is a map from names.
pub record ExecuteOption : Type 0 where
  pub work_dir : Text
  pub mode : Text
  pub permissions : List Text
  pub mcp_servers : List (Text × McpServerConfig)
  pub labels : List Text
  pub thinking : Bool

pub record ExecuteResult : Type 0 where
  pub session_id : Text
  pub result : Text
  pub error : Text
  pub is_error : Bool
  pub duration_ms : ℕ
  pub num_turns : ℕ
  pub usage : Option Usage
  pub tools_used : List Text
