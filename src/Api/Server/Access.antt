-- ===== src/Api/Server/Access.antt =====
-- api/server.go, authMiddleware: what a request without the token gets.
use amp_sentinel.Prelude.{
  ◌≡◌, refl, ap, inl, inr, Bool, true, false, ℕ, [], ◌∷◌, ◌++◌, none, ◌==◌, arith, Bool-cases,
  if◌then◌else◌,
}
use amp_sentinel.Prelude.Text.{Text, utf8, text_eq, text_eq_iff, is_empty}
use amp_sentinel.Diagnosis.Parse.{strip_prefix}
use amp_sentinel.Api.Messages.{
  Body, error_message, status_ok, dashboard, moved, Request, has_prefix,
}
use amp_sentinel.Api.Server.{
  Server, handle_health, Reply, is_public, matched, route, auth_middleware, serve,
}

-- A body with nothing of the store, the registry or the scheduler.
abbrev pub is_bare : Body → Bool
is_bare (error_message m) = true
is_bare status_ok = true
is_bare dashboard = true
is_bare moved = true
is_bare _ = false

-- Two prefixes of one text do not differ at a byte that both have.
clash :
    (p : Text) (a b : ℕ) (x y s : Text)
    → (a == b) ≡ false
    → has_prefix (p ++ a ∷ x) s ≡ true
    → has_prefix (p ++ b ∷ y) s ≡ false
unfolding has_prefix strip_prefix
clash [] a b x y [] ne h = refl
clash [] a b x y (c ∷ s) ne h = ground (arith, ne, h)
clash (q ∷ p) a b x y [] ne h = refl
clash (q ∷ p) a b x y (c ∷ s) ne h = elim (Bool-cases (q == c)) [
  | inl e ↦ rw e (clash p a b x y s ne (rw e at h))
  | inr e ↦ rw e refl
]

abbrev pages : Text
pages = utf8 "/admin/dashboard"

-- The texts of the routes apart from the dashboard's.
abbrev IsDataRoute : Text → Type 0
IsDataRoute lit = has_prefix pages lit ≡ false

not_at :
    (lit path : Text) → IsDataRoute lit → has_prefix pages path ≡ true → text_eq path lit ≡ false
not_at lit path apart h = elim (Bool-cases (text_eq path lit)) [
  | inl e ↦
      let same = ap (has_prefix pages) ((text_eq_iff path lit).0 e) in
      absurd (ground (arith, apart, h, same))
  | inr e ↦ e
]

data_routes :
    IsDataRoute (utf8 "/admin/v1/health")
    × IsDataRoute (utf8 "/admin/v1/stats")
    × IsDataRoute (utf8 "/admin/v1/projects")
    × IsDataRoute (utf8 "/admin/v1/incidents")
    × IsDataRoute (utf8 "/admin/v1/tasks")
unfolding utf8 has_prefix strip_prefix
data_routes = (refl, refl, refl, refl, refl)

module _ (path : Text) (h : has_prefix pages path ≡ true) where
  no_incident : has_prefix (utf8 "/admin/v1/incidents/") path ≡ false
  unfolding utf8
  no_incident = clash (utf8 "/admin/") b'd' b'v' (utf8 "ashboard") (utf8 "1/incidents/") path refl h

  no_task : has_prefix (utf8 "/admin/v1/tasks/") path ≡ false
  unfolding utf8
  no_task = clash (utf8 "/admin/") b'd' b'v' (utf8 "ashboard") (utf8 "1/tasks/") path refl h

  no_report : has_prefix (utf8 "/admin/v1/reports/") path ≡ false
  unfolding utf8
  no_report = clash (utf8 "/admin/") b'd' b'v' (utf8 "ashboard") (utf8 "1/reports/") path refl h

health_apart :
    (has_prefix (utf8 "/admin/dashboard/") (utf8 "/admin/v1/health") ≡ false)
    × (text_eq (utf8 "/admin/v1/health") (utf8 "/admin/dashboard") ≡ false)
unfolding utf8 has_prefix strip_prefix text_eq
health_apart = (refl, refl)

module _ (s : Server) (r : Request) where
  abbrev IsBare : Reply s → Type 0
  IsBare (response, handed) = (is_bare response.body ≡ true) × (handed ≡ none)

  health_bare : is_bare (handle_health s r).body ≡ true
  unfolding handle_health
  health_bare = ground arith

  pages-IsBare : has_prefix pages r.path ≡ true → IsBare (matched s r)
  unfolding matched
  pages-IsBare h =
      let d = data_routes in
      ground (
        arith,
        not_at (utf8 "/admin/v1/health") r.path d.0 h,
        not_at (utf8 "/admin/v1/stats") r.path d.1 h,
        not_at (utf8 "/admin/v1/projects") r.path d.2 h,
        not_at (utf8 "/admin/v1/incidents") r.path d.3 h,
        not_at (utf8 "/admin/v1/tasks") r.path d.4 h,
        no_incident r.path h,
        no_task r.path h,
        no_report r.path h,
      )

  at_health-IsBare : text_eq r.path (utf8 "/admin/v1/health") ≡ true → IsBare (matched s r)
  unfolding matched
  at_health-IsBare h =
      let same = (text_eq_iff r.path (utf8 "/admin/v1/health")).0 h in
      ground (
        arith,
        h,
        health_bare,
        health_apart,
        ap (has_prefix (utf8 "/admin/dashboard/")) same,
        ap (λ p. text_eq p (utf8 "/admin/dashboard")) same,
      )

  route-IsBare : IsBare (matched s r) → IsBare (route s r)
  unfolding route
  route-IsBare h = ground (arith, h)

  -- Where a token is set, a request that does not bear it gets nothing of the store, the registry or the scheduler, and no event is handed
  -- to the scheduler; it gets status 401 unless its path is the health check's or one of the dashboard's.
  pub serve_unauthorized :
      is_empty s.auth_token ≡ false
      → text_eq r.authorization (utf8 "Bearer " ++ s.auth_token) ≡ false
      → IsBare (serve s r)
        × ((serve s r).0.status ≡ (if is_public s r then (route s r).0.status else 401))
  unfolding serve auth_middleware is_public
  serve_unauthorized set wrong = elim (Bool-cases (text_eq r.path (utf8 "/admin/v1/health"))) [
    | inl health ↦ ground (arith, set, health, route-IsBare (at_health-IsBare health))
    | inr other ↦ elim (Bool-cases (has_prefix pages r.path)) [
      | inl page ↦ ground (arith, set, other, page, route-IsBare (pages-IsBare page))
      | inr none_of ↦ ground (arith, set, other, none_of, wrong)
    ]
  ]
