-- ===== src/Skill/Manager/Servers.antt =====
-- skill/manager.go, MCPConfig: the variables of a server, and what a second call finds.
use amp_sentinel.Prelude.{
  ◌≡◌, refl, ap, inl, inr, true, List, [], ◌∷◌, ◌++◌, Option, none, some, is_some, if◌then◌else◌,
  arith, Bool-cases,
}
use amp_sentinel.Prelude.Text.{Text, text_eq, text_eq_iff, text_eq_refl}
use amp_sentinel.Store.Table.{find_record, put_record}
use amp_sentinel.Skill.Types.{Skill, McpServerConfig}
use amp_sentinel.Skill.Manager.{
  Manager, NamedServers, entry_key, fill, env_of, own_env, fill_server, merge_servers, merge_skills,
  mcp_config,
}

abbrev Env : Type 0
Env = List (Text × Text)

abbrev pub first_of {ℓ} : {A : Type ℓ} → Option A → Option A → Option A
first_of (some a) o = some a
first_of none o = o

abbrev here : Text × Text → Text → Option (Text × Text)
here v k = if text_eq (entry_key v) k then some v else none

find-append_last :
    (env : Env) (v : Text × Text) (k : Text)
    → find_record entry_key (env ++ v ∷ []) k ≡ first_of (find_record entry_key env k) (here v k)
unfolding find_record
find-append_last [] v k = refl
find-append_last (w ∷ env) v k = ground (arith, find-append_last env v k)

find_eq :
    (env : Env) (j k : Text)
    → text_eq j k ≡ true
    → find_record entry_key env j ≡ find_record entry_key env k
find_eq env j k e = ap (find_record entry_key env) ((text_eq_iff j k).0 e)

-- A server's own value of a variable is kept, and the manager's is added where it has none.
pub find_record-fill :
    (vars env : Env) (k : Text)
    → find_record entry_key (fill vars env) k
      ≡ first_of (find_record entry_key env k) (find_record entry_key vars k)
unfolding fill find_record
find_record-fill [] env k = ground arith
find_record-fill (v ∷ vars) env k =
    elim (Bool-cases (is_some (find_record entry_key env (entry_key v)))) [
      | inl e ↦ elim (Bool-cases (text_eq (entry_key v) k)) [
        | inl same ↦
            ground (arith, e, same, find_record-fill vars env k, find_eq env (entry_key v) k same)
        | inr other ↦ ground (arith, e, other, find_record-fill vars env k)
      ]
      | inr e ↦ ground (arith, e, find_record-fill vars (env ++ v ∷ []) k, find-append_last env v k)
    ]

abbrev AllIn : Env → Env → Type 0
AllIn [] env = Unit {0}
AllIn (v ∷ vars) env = (is_some (find_record entry_key env (entry_key v)) ≡ true) × AllIn vars env

fill_same : (vars env : Env) → AllIn vars env → fill vars env ≡ env
unfolding fill
fill_same [] env h = refl
fill_same (v ∷ vars) env h = rw h.0 (fill_same vars env h.1)

own_value : (v : Text × Text) (vars : Env) → find_record entry_key (v ∷ vars) (entry_key v) ≡ some v
unfolding find_record
own_value v vars = rw (text_eq_refl (entry_key v)) refl

fill-AllIn : (vars env : Env) → AllIn vars (fill vars env)
unfolding fill
fill-AllIn [] env = tt
fill-AllIn (v ∷ vars) env = (
  ground (arith, find_record-fill (v ∷ vars) env (entry_key v), own_value v vars),
  elim (Bool-cases (is_some (find_record entry_key env (entry_key v)))) [
    | inl e ↦ rw e (fill-AllIn vars env)
    | inr e ↦ rw e (fill-AllIn vars (env ++ v ∷ []))
  ],
)

fill-fill : (vars env : Env) → fill vars (fill vars env) ≡ fill vars env
fill-fill vars env = fill_same vars (fill vars env) (fill-AllIn vars env)

-- What a call has made of the map of a server: nil stays nil; in any other, a variable has the value that the server gave
-- it, or else the manager's.
abbrev pub EnvWritten : Env → Option Env → Option Env → Type 0
EnvWritten vars none after = after ≡ none
EnvWritten vars (some env) after =
    (filled : Env) × (after ≡ some filled)
    × ((k : Text)
        → find_record entry_key filled k
          ≡ first_of (find_record entry_key env k) (find_record entry_key vars k))

-- The servers, one by one: the map is written, and nothing else changes.
abbrev pub ServersWritten : Env → NamedServers → NamedServers → Type 0
ServersWritten vars [] [] = Unit {0}
ServersWritten vars ((name, srv) ∷ before) ((name_after, own) ∷ after) =
    (name_after ≡ name)
    × (own ≡ record srv { env = own.env })
    × EnvWritten vars srv.env own.env
    × ServersWritten vars before after
ServersWritten vars _ _ = ⊥

abbrev pub SkillsWritten : Env → List Skill → List Skill → Type 0
SkillsWritten vars [] [] = Unit {0}
SkillsWritten vars (s ∷ before) (t ∷ after) =
    (t ≡ record s { mcp_servers = t.mcp_servers })
    × ServersWritten vars s.mcp_servers t.mcp_servers
    × SkillsWritten vars before after
SkillsWritten vars _ _ = ⊥

own_env-written :
    (vars : Env) (o : Option Env) → EnvWritten vars o (own_env o (fill vars (env_of o)))
unfolding own_env env_of
own_env-written vars none = refl
own_env-written vars (some env) = (fill vars env, refl, find_record-fill vars env)

merge_servers-written :
    (vars : Env) (servers merged : NamedServers)
    → ServersWritten vars servers (merge_servers vars servers merged).1
unfolding merge_servers fill_server
merge_servers-written vars [] merged = tt
merge_servers-written vars ((name, srv) ∷ servers) merged =
    (refl, refl, own_env-written vars srv.env, merge_servers-written vars servers _)

merge_skills-written :
    (vars : Env) (skills : List Skill) (merged : NamedServers)
    → SkillsWritten vars skills (merge_skills vars skills merged).1
unfolding merge_skills
merge_skills-written vars [] merged = tt
merge_skills-written vars (s ∷ skills) merged =
    (refl, merge_servers-written vars s.mcp_servers merged, merge_skills-written vars skills _)

filled_again :
    (vars : Env) (o : Option Env)
    → fill vars (env_of (own_env o (fill vars (env_of o)))) ≡ fill vars (env_of o)
unfolding env_of own_env
filled_again vars none = refl
filled_again vars (some env) = fill-fill vars env

owned_again : (o : Option Env) (env : Env) → own_env (own_env o env) env ≡ own_env o env
unfolding own_env
owned_again none env = refl
owned_again (some old) env = refl

fill_server_again :
    (vars : Env) (srv : McpServerConfig)
    → fill_server vars (fill_server vars srv).1 ≡ fill_server vars srv
unfolding fill_server
fill_server_again vars srv = rw (filled_again vars srv.env, owned_again srv.env _) refl

merge_servers_again :
    (vars : Env) (servers a b : NamedServers)
    → merge_servers vars (merge_servers vars servers a).1 b
      ≡ ((merge_servers vars servers b).0, (merge_servers vars servers a).1)
unfolding merge_servers
merge_servers_again vars [] a b = refl
merge_servers_again vars ((name, srv) ∷ servers) a b =
    let filled = fill_server vars srv in
    rw
      (
        fill_server_again vars srv,
        merge_servers_again vars servers (put_record entry_key a (name, filled.0))
            (put_record entry_key b (name, filled.0)),
      )
      refl

merge_skills_again :
    (vars : Env) (skills : List Skill) (a b : NamedServers)
    → merge_skills vars (merge_skills vars skills a).1 b
      ≡ ((merge_skills vars skills b).0, (merge_skills vars skills a).1)
unfolding merge_skills
merge_skills_again vars [] a b = refl
merge_skills_again vars (s ∷ skills) a b =
    rw
      (
        merge_servers_again vars s.mcp_servers a b,
        merge_skills_again vars skills (merge_servers vars s.mcp_servers a).0
            (merge_servers vars s.mcp_servers b).0,
      )
      refl

-- A call leaves in every map that a skill holds for a server, where it is not nil, the manager's variables that were not
-- there, and changes nothing else of the skills; and a second call, on the skills as the first left them, gives the same
-- servers and changes nothing more.
pub mcp_config_idem :
    (m : Manager) (skills : List Skill)
    → let (servers, after) = mcp_config m skills in
      SkillsWritten m.env skills after × (mcp_config m after ≡ (servers, after))
unfolding mcp_config
mcp_config_idem m skills =
    (merge_skills-written m.env skills [], merge_skills_again m.env skills [] [])
