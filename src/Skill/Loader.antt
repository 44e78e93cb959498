-- ===== src/Skill/Loader.antt =====
-- skill/manager.go, loadSkill and parseFrontmatter: a skill from its files.
use amp_sentinel.Prelude.{ℕ, ◌||◌, List, [], ◌∷◌, Option, none, some, map, ◌==◌, if◌then◌else◌}
use amp_sentinel.Prelude.Text.{Text, utf8, is_empty}
use amp_sentinel.Diagnosis.Parse.{strip_prefix, before_mark}
use amp_sentinel.Skill.Types.{Skill, McpServerConfig}

pub record SkillFrontmatter : Type 0 where
  pub name : Text
  pub description : Text
  pub globs : List Text

pub data LoadError : Type 0 where
  read_skill_md : LoadError
  no_opening : LoadError
  no_closing : LoadError
  bad_yaml : LoadError
  missing_name : LoadError
  parse_mcp_json : LoadError

pub data Loaded {ℓ} (A : Type ℓ) : Type ℓ where
  ok : A → Loaded A
  err : LoadError → Loaded A

-- strings.TrimLeft with a cutset of two bytes.
unfoldable pub drop_either : ℕ → ℕ → Text → Text
drop_either a b [] = []
drop_either a b (c ∷ s) = let rest = drop_either a b s in if c == a || c == b then rest else c ∷ s

-- The end of the line that the opening delimiter stands on.
unfoldable pub drop_line_end : Text → Text
drop_line_end [] = []
drop_line_end (c ∷ []) = if c == b'\n' then [] else c ∷ []
drop_line_end (c ∷ d ∷ s) =
    if c == b'\n'
    then d ∷ s
    else if c == b'\r'
    then (if d == b'\n' then s else c ∷ d ∷ s)
    else c ∷ d ∷ s

-- `unmarshal` is yaml.Unmarshal into the frontmatter.
module _ (unmarshal : Text → Option SkillFrontmatter) where
  unfoldable pub read_block : Option Text → Loaded SkillFrontmatter
  read_block none = err no_closing
  read_block (some block) = elim (unmarshal block) [ none ↦ err bad_yaml | some fm ↦ ok fm ]

  unfoldable pub after_opening : Option Text → Loaded SkillFrontmatter
  after_opening none = err no_opening
  after_opening (some rest) =
      read_block (before_mark (utf8 "\n---") (drop_line_end (drop_either b' ' b'\t' rest)))

  unfoldable pub parse_frontmatter : Text → Loaded SkillFrontmatter
  parse_frontmatter content =
      after_opening (strip_prefix (utf8 "---") (drop_either b'\r' b'\n' content))

-- `expand` is os.Expand with os.Getenv.
unfoldable pub expand_env :
    (Text → Text) → Option (List (Text × Text)) → Option (List (Text × Text))
expand_env expand none = none
expand_env expand (some env) = some (map (λ v. (v.0, expand v.1)) env)

unfoldable pub expand_server : (Text → Text) → McpServerConfig → McpServerConfig
expand_server expand srv = record srv { url = expand srv.url; env = expand_env expand srv.env }

-- The files of a skill: SKILL.md and mcp.json as os.ReadFile gives them.
pub record SkillFiles : Type 0 where
  pub dir : Text
  pub skill_md : Option Text
  pub mcp_json : Option Text

module _ (unmarshal : Text → Option SkillFrontmatter)
    (unmarshal_servers : Text → Option (List (Text × McpServerConfig))) (expand : Text → Text) where
  unfoldable pub with_servers : Skill → Option (List (Text × McpServerConfig)) → Loaded Skill
  with_servers sk none = err parse_mcp_json
  with_servers sk (some servers) =
      ok (record sk { mcp_servers = map (λ e. (e.0, expand_server expand e.1)) servers })

  unfoldable pub add_servers : Skill → Option Text → Loaded Skill
  add_servers sk none = ok sk
  add_servers sk (some content) = with_servers sk (unmarshal_servers content)

  unfoldable pub skill_of : SkillFiles → Text → Loaded SkillFrontmatter → Loaded Skill
  skill_of files content (err e) = err e
  skill_of files content (ok fm) =
      if is_empty fm.name
      then err missing_name
      else add_servers
          (record {
            name = fm.name;
            description = fm.description;
            globs = fm.globs;
            dir = files.dir;
            mcp_servers = [];
            content = content;
          })
          files.mcp_json

  unfoldable pub read_skill : SkillFiles → Option Text → Loaded Skill
  read_skill files none = err read_skill_md
  read_skill files (some content) = skill_of files content (parse_frontmatter unmarshal content)

  unfoldable pub load_skill : SkillFiles → Loaded Skill
  load_skill files = read_skill files files.skill_md
