-- ===== src/Store/Table.antt =====
-- store/json.go: a Go map from ids to records, as the list of its records in the order that `range` visits them.
use amp_sentinel.Prelude.{
  ◌≡◌, refl, sym, ap, ◌∙◌, inl, inr, true, false, ◌||◌, List, [], ◌∷◌, Option, none, some,
  if◌then◌else◌, any, arith, Bool-cases,
}
use amp_sentinel.Prelude.Text.{Text, text_eq, text_eq_iff}

module _ {ℓ} {A : Type ℓ} (key : A → Text) where
  -- `m[id]`
  unfoldable pub find_record : List A → Text → Option A
  find_record [] k = none
  find_record (x ∷ xs) k = let rest = find_record xs k in if text_eq (key x) k then some x else rest

  -- `m[id] = x`
  unfoldable pub put_record : List A → A → List A
  put_record [] x = x ∷ []
  put_record (y ∷ ys) x =
      let rest = put_record ys x in if text_eq (key y) (key x) then x ∷ ys else y ∷ rest

  has_same : (a b c : Text) → text_eq a b ≡ true → text_eq a c ≡ text_eq b c
  has_same a b c p = ap (λ x. text_eq x c) ((text_eq_iff a b).0 p)

  pub find_record-put_record :
      (xs : List A) (x : A) (k : Text)
      → find_record (put_record xs x) k ≡ (if text_eq (key x) k then some x else find_record xs k)
  unfolding find_record put_record
  find_record-put_record [] x k = refl
  find_record-put_record (y ∷ ys) x k = elim (Bool-cases (text_eq (key y) (key x))) [
    | inl e ↦ let same = has_same (key y) (key x) k e in rw e (ground (arith, same))
    | inr e ↦ elim (Bool-cases (text_eq (key y) k)) [
      | inl a ↦ elim (Bool-cases (text_eq (key x) k)) [
        | inl b ↦
            let eq = (text_eq_iff (key y) k).0 a in
            let back = has_same (key x) k (key y) b in
            absurd (
              ground (
                arith,
                e,
                text_eq_iff (key y) (key x),
                text_eq_iff (key y) k,
                text_eq_iff (key x) k,
                a,
                b,
              ))
        | inr b ↦ rw (e, a, b) refl
      ]
      | inr a ↦ rw (e, a) (find_record-put_record ys x k)
    ]
  ]

  -- No two records have the same id.
  unfoldable pub IsDistinct : List A → Type 0
  IsDistinct [] = Unit {0}
  IsDistinct (x ∷ xs) = (any (λ y. text_eq (key y) (key x)) xs ≡ false) × IsDistinct xs

  any-put_record :
      (xs : List A) (x : A) (k : Text)
      → any (λ y. text_eq (key y) k) (put_record xs x)
        ≡ (text_eq (key x) k || any (λ y. text_eq (key y) k) xs)
  unfolding put_record
  any-put_record [] x k = refl
  any-put_record (y ∷ ys) x k = elim (Bool-cases (text_eq (key y) (key x))) [
    | inl e ↦ rw e (ground (arith, has_same (key y) (key x) k e))
    | inr e ↦ rw e (ground (arith, any-put_record ys x k))
  ]

  pub put_record-IsDistinct : (xs : List A) (x : A) → IsDistinct xs → IsDistinct (put_record xs x)
  unfolding put_record IsDistinct
  put_record-IsDistinct [] x d = (refl, tt)
  put_record-IsDistinct (y ∷ ys) x d = elim (Bool-cases (text_eq (key y) (key x))) [
    | inl e ↦
        let same : key y ≡ key x = (text_eq_iff (key y) (key x)).0 e in
        rw e (ap (λ k. any (λ z. text_eq (key z) k) ys) (sym same) ∙ d.0, d.1)
    | inr e ↦
        let other : text_eq (key x) (key y) ≡ false =
          ground (arith, text_eq_iff (key x) (key y), text_eq_iff (key y) (key x)) in
        rw e
          (any-put_record ys x (key y) ∙ ground (arith, other, d.0), put_record-IsDistinct ys x d.1)
  ]
