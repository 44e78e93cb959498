-- ===== src/Intake/Display/Truncated.antt =====
-- intake/types.go, TruncateRunes: the runes that are left of a text.
use amp_sentinel.Prelude.{
  ℕ, ◌≡◌, refl, ap, sym, ◌∙◌, inl, inr, List, [], ◌∷◌, ◌++◌, leb, if◌then◌else◌, length, take,
  arith, Bool-cases,
}
use amp_sentinel.Prelude.Text.{Text, utf8}
use amp_sentinel.Prelude.Runes.{runes, from_runes}
use amp_sentinel.Prelude.Runes.RoundTrip.{
  runes-from_runes, runes-AllScalars, take-AllScalars, append-AllScalars, from_runes-append,
}
use amp_sentinel.Intake.Display.{truncate_runes}

abbrev ellipsis : List ℕ
ellipsis = 0x2E ∷ 0x2E ∷ 0x2E ∷ []

dots-from_runes : utf8 "..." ≡ from_runes ellipsis
unfolding utf8 from_runes
dots-from_runes = refl

-- A text of at most `n` runes is left alone; of a longer one its first `n` runes are left, and three dots.
pub truncate_runes-runes :
    (s : Text) (n : ℕ)
    → runes (truncate_runes s n)
      ≡ (if leb (length (runes s)) n then runes s else take n (runes s) ++ 0x2E ∷ 0x2E ∷ 0x2E ∷ [])
unfolding truncate_runes
truncate_runes-runes s n = elim (Bool-cases (leb (length (runes s)) n)) [
  | inl b ↦ rw b refl
  | inr b ↦
      rw (b, dots-from_runes)
        (ap runes (sym (from_runes-append (take n (runes s)) ellipsis))
          ∙ runes-from_runes (take n (runes s) ++ ellipsis) (
              append-AllScalars (take n (runes s)) ellipsis
                (take-AllScalars n (runes s) (runes-AllScalars s)) (ground arith)))
]
