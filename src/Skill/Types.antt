-- ===== src/Skill/Types.antt =====
-- skill/types.go: a skill and the configuration of its MCP servers. A Go map is the list of its
-- entries; `env` is nothing where the map is nil.
use amp_sentinel.Prelude.{List, Option}
use amp_sentinel.Prelude.Text.{Text}

pub record McpServerConfig : Type 0 where
  pub command : Text
  pub args : List Text
  pub env : Option (List (Text × Text))
  pub url : Text
  pub headers : List (Text × Text)

pub record Skill : Type 0 where
  pub name : Text
  pub description : Text
  pub globs : List Text
  pub dir : Text
  pub mcp_servers : List (Text × McpServerConfig)
  pub content : Text
