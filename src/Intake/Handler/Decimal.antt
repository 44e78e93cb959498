-- ===== src/Intake/Handler/Decimal.antt =====
-- intake/handler.go, the numbers in the error texts: any fuel above a number writes the same digits.
use amp_sentinel.Prelude.{
  ℕ, zero, suc, ◌+◌, ◌/◌, ◌%◌, ◌<◌, ◌≡◌, refl, ap, inl, inr, [], ◌∷◌, ◌++◌, ltb, arith, Bool-cases,
}
use amp_sentinel.Intake.Handler.{decimal_loop}

pub decimal_loop_enough : (k m n : ℕ) → n < k → n < m → decimal_loop k n ≡ decimal_loop m n
unfolding decimal_loop
decimal_loop_enough zero m n p q = absurd (omega arith)
decimal_loop_enough (suc k) zero n p q = absurd (omega arith)
decimal_loop_enough (suc k) (suc m) n p q = elim (Bool-cases (ltb n 10)) [
  | inl b ↦ rw b refl
  | inr b ↦ rw b (
      ap (λ s. s ++ (b'0' + n % 10) ∷ [])
        (decimal_loop_enough k m (n / 10) (ground arith) (ground arith)))
]
