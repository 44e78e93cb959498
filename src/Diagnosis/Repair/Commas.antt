-- ===== src/Diagnosis/Repair/Commas.antt =====
-- diagnosis/structured.go, fixTrailingComma: what goes and what stays.
use mathlib.Core.Path.{subst}
use amp_sentinel.Prelude.{
  ℕ, ◌≡◌, refl, ◌∙◌, Bool, true, false, ◌&&◌, ◌||◌, [], ◌∷◌, arith, ◌==◌, if◌then◌else◌, Bool-cases,
  inl, inr,
}
use amp_sentinel.Prelude.Text.{Text}
use amp_sentinel.Diagnosis.Repair.{
  Quote, outside, quote_step, is_structural, skip_blanks, starts_closer, is_trailing, fix_commas,
  fix_trailing_comma,
}

-- The text without the commas that stand outside strings.
unfoldable pub without_commas : Quote → Text → Text
without_commas q [] = []
without_commas q (c ∷ s) =
    let rest = without_commas (quote_step q c) s in
    if is_structural q c && c == b',' then rest else c ∷ rest

-- A comma outside a string leaves the quotes as they are.
quote_step_comma : (q : Quote) (c : ℕ) → is_structural q c ≡ true → c ≡ b',' → quote_step q c ≡ q
unfolding quote_step is_structural
quote_step_comma q c h e = ground arith

fix_commas-without_commas :
    (q : Quote) (s : Text) → without_commas q (fix_commas q s) ≡ without_commas q s
unfolding fix_commas without_commas is_trailing
fix_commas-without_commas q [] = refl
fix_commas-without_commas q (c ∷ s) =
    ground (arith, quote_step_comma q c, fix_commas-without_commas (quote_step q c) s)

-- A comma that stands outside strings before a closing bracket, with only blanks between.
unfoldable pub has_trailing : Quote → Text → Bool
has_trailing q [] = false
has_trailing q (c ∷ s) = is_trailing q c s || has_trailing (quote_step q c) s

abbrev starts_comma : Text → Bool
starts_comma [] = false
starts_comma (c ∷ s) = c == b','

-- Two commas that stand outside strings, with only blanks between.
unfoldable pub has_double : Quote → Text → Bool
has_double q [] = false
has_double q (c ∷ s) =
    (is_structural q c && c == b',' && starts_comma (skip_blanks s))
    || has_double (quote_step q c) s

-- Past the blanks, a text that goes on with no comma goes on with the same byte when fixed.
skip_blanks-fix_commas :
    (s : Text)
    → starts_comma (skip_blanks s) ≡ false
    → starts_closer (skip_blanks (fix_commas outside s)) ≡ starts_closer (skip_blanks s)
unfolding fix_commas skip_blanks starts_closer is_trailing is_structural quote_step
skip_blanks-fix_commas [] h = refl
skip_blanks-fix_commas (c ∷ s) h = ground (arith, skip_blanks-fix_commas s)

is_structural-outside : (q : Quote) (c : ℕ) → is_structural q c ≡ true → q ≡ outside
unfolding is_structural
is_structural-outside q c h = ground arith

fix_commas-starts_closer :
    (q : Quote) (c : ℕ) (s : Text)
    → (is_structural q c && c == b',') ≡ true
    → starts_comma (skip_blanks s) ≡ false
    → starts_closer (skip_blanks (fix_commas (quote_step q c) s)) ≡ starts_closer (skip_blanks s)
fix_commas-starts_closer q c s h d =
    let at : is_structural q c ≡ true = ground arith in
    let stay = quote_step_comma q c at (ground arith) ∙ is_structural-outside q c at in
    rw stay (skip_blanks-fix_commas s d)

fix_commas-is_trailing :
    (q : Quote) (c : ℕ) (s : Text)
    → (is_structural q c && c == b',' && starts_comma (skip_blanks s)) ≡ false
    → is_trailing q c (fix_commas (quote_step q c) s) ≡ is_trailing q c s
unfolding is_trailing
fix_commas-is_trailing q c s d = elim (Bool-cases (is_structural q c && c == b',')) [
  | inl h ↦ ground (arith, fix_commas-starts_closer q c s)
  | inr h ↦ ground arith
]

is_trailing-quote_step :
    (q : Quote) (c : ℕ) (s : Text) → is_trailing q c s ≡ true → quote_step q c ≡ q
unfolding is_trailing
is_trailing-quote_step q c s h = ground (arith, quote_step_comma q c)

fix_commas-has_trailing :
    (q : Quote) (s : Text) → has_double q s ≡ false → has_trailing q (fix_commas q s) ≡ false
unfolding fix_commas has_trailing has_double
fix_commas-has_trailing q [] h = refl
fix_commas-has_trailing q (c ∷ s) h =
    let rest = fix_commas-has_trailing (quote_step q c) s (ground arith) in
    elim (Bool-cases (is_trailing q c s)) [
      | inl t ↦
          let stay = is_trailing-quote_step q c s t in
          rw t (subst (λ q'. has_trailing q' (fix_commas (quote_step q c) s) ≡ false) stay rest)
      | inr t ↦ rw (t, fix_commas-is_trailing q c s (ground arith), t) rest
    ]

-- A text without a trailing comma is left as it is.
fix_commas_same : (q : Quote) (s : Text) → has_trailing q s ≡ false → fix_commas q s ≡ s
unfolding fix_commas has_trailing
fix_commas_same q [] h = refl
fix_commas_same q (c ∷ s) h = ground (arith, fix_commas_same (quote_step q c) s)

-- `fixTrailingComma` removes commas outside strings and nothing else; and its result has no trailing comma, if no two
-- commas outside strings stand side by side or with blanks between.
pub fix_trailing_comma_fixes :
    (s : Text)
    → has_double outside s ≡ false
    → (without_commas outside (fix_trailing_comma s) ≡ without_commas outside s)
      × (has_trailing outside (fix_trailing_comma s) ≡ false)
unfolding fix_trailing_comma
fix_trailing_comma_fixes s single =
    (fix_commas-without_commas outside s, fix_commas-has_trailing outside s single)

-- `fixTrailingComma` leaves a text without a trailing comma as it is.
pub fix_trailing_comma_same : (s : Text) → has_trailing outside s ≡ false → fix_trailing_comma s ≡ s
unfolding fix_trailing_comma
fix_trailing_comma_same s h = fix_commas_same outside s h
