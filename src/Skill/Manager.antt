-- ===== src/Skill/Manager.antt =====
-- skill/manager.go: the loaded skills, those of a project, and the servers that they bring.
use amp_sentinel.Prelude.{List, [], ◌∷◌, ◌++◌, Option, none, some, map, is_some, if◌then◌else◌}
use amp_sentinel.Prelude.Text.{Text}
use amp_sentinel.Store.Table.{find_record, put_record}
use amp_sentinel.Skill.Types.{Skill, McpServerConfig}
pub mod Servers

-- `skills` is a map from names, `env` the variables that every server gets.
pub record Manager : Type 0 where
  pub skills : List Skill
  pub dir : Text
  pub env : List (Text × Text)

abbrev pub skill_key : Skill → Text
skill_key s = s.name

-- A map from names to values, as the list of its entries.
abbrev pub entry_key {ℓ} : {A : Type ℓ} → Text × A → Text
entry_key (k, v) = k

unfoldable pub new_manager : Text → List (Text × Text) → Manager
new_manager dir env = record { skills = []; dir = dir; env = env }

-- What loadSkill gives for one entry of the directory: nothing for an error or a file.
unfoldable pub load_all : Manager → List (Option Skill) → Manager
load_all m [] = m
load_all m (none ∷ entries) = load_all m entries
load_all m (some s ∷ entries) =
    load_all (record m { skills = put_record skill_key m.skills s }) entries

unfoldable pub get_skill : Manager → Text → Option Skill
get_skill m name = find_record skill_key m.skills name

unfoldable pub resolve : Manager → List Text → List Skill
resolve m [] = []
resolve m (name ∷ names) = elim (get_skill m name) [
  | none ↦ resolve m names
  | some s ↦ s ∷ resolve m names
]

unfoldable pub skill_dirs : List Skill → List Text
skill_dirs = map (λ s. s.dir)

-- The loop over the manager's variables: one that the server does not have is set.
unfoldable pub fill : List (Text × Text) → List (Text × Text) → List (Text × Text)
fill [] env = env
fill (v ∷ vars) env =
    fill vars (if is_some (find_record entry_key env (entry_key v)) then env else env ++ v ∷ [])

unfoldable pub env_of : Option (List (Text × Text)) → List (Text × Text)
env_of none = []
env_of (some env) = env

-- `srv` is a copy of the skill's own configuration, but its map is the same, unless that is nil: what is written into it
-- is in the skill's own afterwards. The copy comes first, the skill's own second.
unfoldable pub own_env :
    Option (List (Text × Text)) → List (Text × Text) → Option (List (Text × Text))
own_env none env = none
own_env (some old) env = some env

unfoldable pub fill_server :
    List (Text × Text) → McpServerConfig → McpServerConfig × McpServerConfig
fill_server vars srv =
    let env = fill vars (env_of srv.env) in
    (record srv { env = some env }, record srv { env = own_env srv.env env })

abbrev pub NamedServers : Type 0
NamedServers = List (Text × McpServerConfig)

-- The loop over the servers of a skill: what is merged, and the servers as the skill has them afterwards.
unfoldable pub merge_servers :
    List (Text × Text) → NamedServers → NamedServers → NamedServers × NamedServers
merge_servers vars [] merged = (merged, [])
merge_servers vars ((name, srv) ∷ servers) merged =
    let (filled, own) = fill_server vars srv in
    let (all_merged, rest) =
      merge_servers vars servers (put_record entry_key merged (name, filled)) in
    (all_merged, (name, own) ∷ rest)

-- The servers of all the skills, of two with one name the later; and the skills afterwards.
unfoldable pub merge_skills :
    List (Text × Text) → List Skill → NamedServers → NamedServers × List Skill
merge_skills vars [] merged = (merged, [])
merge_skills vars (s ∷ skills) merged =
    let (with_own, servers) = merge_servers vars s.mcp_servers merged in
    let (all_merged, rest) = merge_skills vars skills with_own in
    (all_merged, record s { mcp_servers = servers } ∷ rest)

-- MCPConfig, with the skills as it leaves them.
unfoldable pub mcp_config : Manager → List Skill → NamedServers × List Skill
mcp_config m skills = merge_skills m.env skills []
