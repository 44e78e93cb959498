-- ===== src/Intake/Endpoints/Batch.antt =====
-- intake/handler.go, ServeBatch: one result for each line that is not empty, and the counts of the reply.
use mathlib.Core.List.{map-append}
use amp_sentinel.Prelude.{
  ℕ, ◌+◌, ◌≡◌, refl, Bool, true, false, inl, inr, List, [], ◌∷◌, ◌++◌, map, if◌then◌else◌,
  Bool-cases,
}
use amp_sentinel.Prelude.Text.{Text, is_empty}
use amp_sentinel.Intake.Handler.{HandlerConfig, State, World, too_large}
use amp_sentinel.Intake.Endpoints.{Request, batch_line, batch_lines}

-- The numbers of the lines that are not empty, from `n` on.
unfoldable pub numbered : ℕ → List Text → List ℕ
numbered n [] = []
numbered n (line ∷ lines) =
    let rest = numbered (n + 1) lines in if is_empty line then rest else n ∷ rest

batch_line-line :
    (valid : Text → Bool) (cfg : HandlerConfig) (w : World) (r : Request) (s : State) (n : ℕ)
    (line : Text)
    → map (λ x. x.line) (batch_line valid cfg w r s n line).1
      ≡ (if is_empty line then [] else n ∷ [])
unfolding batch_line
batch_line-line valid cfg w r s n line = elim (Bool-cases (is_empty line)) [
  | inl e ↦ rw e refl
  | inr e ↦ elim (Bool-cases (valid line)) [
    | inl v ↦ elim (Bool-cases (too_large cfg line)) [
      | inl t ↦ rw (e, v, t) refl
      | inr t ↦ rw (e, v, t) refl
    ]
    | inr v ↦ rw (e, v) refl
  ]
]

if_append :
    (b : Bool) (n : ℕ) (xs : List ℕ) → (if b then [] else n ∷ []) ++ xs ≡ (if b then xs else n ∷ xs)
if_append true n xs = refl
if_append false n xs = refl

-- A batch has one result for each line that is not empty, in the order of the lines and under the line's number.
pub batch_lines-numbered :
    (valid : Text → Bool) (cfg : HandlerConfig) (w : ℕ → World) (r : Request) (s : State) (n : ℕ)
    (lines : List Text)
    → map (λ x. x.line) (batch_lines valid cfg w r s n lines).1 ≡ numbered n lines
unfolding batch_lines numbered
batch_lines-numbered valid cfg w r s n [] = refl
batch_lines-numbered valid cfg w r s n (line ∷ lines) =
    let t = (batch_line valid cfg (w n) r s n line).0 in
    let first = batch_line-line valid cfg (w n) r s n line in
    let rest = batch_lines-numbered valid cfg w r t (n + 1) lines in
    rw
      (
        map-append (λ x. x.line) (batch_line valid cfg (w n) r s n line).1
            (batch_lines valid cfg w r t (n + 1) lines).1,
        first,
        rest,
      )
      (if_append (is_empty line) n (numbered (n + 1) lines))
