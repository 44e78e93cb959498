-- ===== src/Diagnosis/Repair/Objects.antt =====
-- diagnosis/structured.go, extractJSONObject: the part of the text that it returns.
use mathlib.Core.Path.{subst}
use mathlib.Core.List.{append_assoc, append-nil}
use amp_sentinel.Prelude.{
  ℕ, ◌+◌, ◌<◌, ◌≡◌, refl, sym, ap, ◌∙◌, Bool, true, false, ◌||◌, [], ◌∷◌, ◌++◌, arith, ◌==◌,
}
use amp_sentinel.Prelude.Text.{Text}
use amp_sentinel.Diagnosis.Repair.{
  Quote, outside, quote_step, is_structural, from_brace, depth_step, take_object,
  extract_json_object,
}
use amp_sentinel.Diagnosis.Repair.Grammar.{
  Quoted, closing, escape, inner, Braced, no_more, other, quoted, braces,
}

unfoldable pub has_brace : Text → Bool
has_brace [] = false
has_brace (c ∷ s) = c == b'{' || has_brace s

abbrev in_string : Quote
in_string = record { in_string = true; escaped = false }

take-Quoted :
    (q : Text)
    → Quoted q
    → (d : ℕ) (rest : Text) → take_object in_string d (q ++ rest) ≡ q ++ take_object outside d rest
unfolding take_object quote_step is_structural depth_step
take-Quoted _ closing d rest = refl
take-Quoted _ (escape c s h) d rest = ap (λ t. b'\\' ∷ c ∷ t) (take-Quoted s h d rest)
take-Quoted _ (inner c s no_quote no_escape h) d rest =
    ground (arith, no_quote, no_escape, take-Quoted s h d rest)

take_close :
    (d : ℕ) (rest : Text)
    → 0 < d
    → take_object outside (d + 1) (b'}' ∷ rest) ≡ b'}' ∷ take_object outside d rest
unfolding take_object quote_step is_structural depth_step
take_close d rest p = ground arith

-- Behind an open brace, matched text is taken whole.
take-Braced :
    (s : Text)
    → Braced s
    → (d : ℕ) (rest : Text) → 0 < d
    → take_object outside d (s ++ rest) ≡ s ++ take_object outside d rest
unfolding take_object quote_step is_structural depth_step
take-Braced _ no_more d rest p = refl
take-Braced _ (other c s no_quote no_open no_close h) d rest p =
    ground (arith, no_quote, no_open, no_close, take-Braced s h d rest p)
take-Braced _ (quoted q s hq h) d rest p =
    ap (λ t. b'"' ∷ take_object in_string d t) (append_assoc q s rest)
    ∙ ap (◌∷◌ b'"') (
        take-Quoted q hq d (s ++ rest)
        ∙ ap (λ t. q ++ t) (take-Braced s h d rest p)
        ∙ sym (append_assoc q s (take_object outside d rest)))
take-Braced _ (braces o s ho h) d rest p =
    ap (λ t. b'{' ∷ take_object outside (d + 1) t) (append_assoc o (b'}' ∷ s) rest)
    ∙ ap (◌∷◌ b'{') (
        take-Braced o ho (d + 1) (b'}' ∷ (s ++ rest)) (omega arith)
        ∙ ap (λ t. o ++ t) (take_close d (s ++ rest) p ∙ ap (◌∷◌ b'}') (take-Braced s h d rest p))
        ∙ sym (append_assoc o (b'}' ∷ s) (take_object outside d rest)))

from_brace_at :
    (before s : Text) → has_brace before ≡ false → from_brace (before ++ b'{' ∷ s) ≡ b'{' ∷ s
unfolding from_brace has_brace
from_brace_at [] s h = refl
from_brace_at (c ∷ before) s h = ground (arith, from_brace_at before s)

from_brace_none : (s : Text) → has_brace s ≡ false → from_brace s ≡ []
unfolding from_brace has_brace
from_brace_none [] h = refl
from_brace_none (c ∷ s) h = ground (arith, from_brace_none s)

-- Without a brace there is nothing to return.
pub extract_json_object_none : (raw : Text) → has_brace raw ≡ false → extract_json_object raw ≡ []
unfolding extract_json_object
extract_json_object_none raw h =
    unfold take_object in ap (take_object outside 0) (from_brace_none raw h)

taken_closed :
    (inside after : Text)
    → Braced inside
    → take_object outside 0 (b'{' ∷ inside ++ b'}' ∷ after) ≡ b'{' ∷ inside ++ b'}' ∷ []
unfolding take_object quote_step is_structural depth_step
taken_closed inside after h = ap (◌∷◌ b'{') (take-Braced inside h 1 (b'}' ∷ after) (omega arith))

taken_open :
    (inside : Text)
    → Braced inside
    → take_object outside 0 (b'{' ∷ inside ++ []) ≡ b'{' ∷ inside ++ []
unfolding take_object quote_step is_structural depth_step
taken_open inside h = ap (◌∷◌ b'{') (take-Braced inside h 1 [] (omega arith))

-- Let no brace stand before the first `{`, and let every brace behind it that is outside a string be matched, up to
-- a place. If a `}` stands there, `extractJSONObject` returns the text from the `{` up to this `}`, whatever
-- follows; if the text ends there, it returns the text from the `{` to the end. A text without `{` gives
-- the empty text.
pub extract_json_object_finds :
    (before inside after : Text)
    → has_brace before ≡ false
    → Braced inside
    → (extract_json_object (before ++ (b'{' ∷ inside ++ b'}' ∷ after)) ≡ b'{' ∷ inside ++ b'}' ∷ [])
      × (extract_json_object (before ++ b'{' ∷ inside) ≡ b'{' ∷ inside)
      × (extract_json_object before ≡ [])
unfolding extract_json_object
extract_json_object_finds before inside after none_before h = (
  ap (take_object outside 0) (from_brace_at before (inside ++ b'}' ∷ after) none_before)
      ∙ taken_closed inside after h,
  ap (take_object outside 0) (from_brace_at before inside none_before)
      ∙ subst (λ t. take_object outside 0 (b'{' ∷ t) ≡ b'{' ∷ t) (append-nil inside)
          (taken_open inside h),
  extract_json_object_none before none_before,
)
