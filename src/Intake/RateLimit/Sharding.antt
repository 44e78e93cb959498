-- ===== src/Intake/RateLimit/Sharding.antt =====
-- intake/handler.go, checkRateLimit: the shards behave as one table from projects to entries.
use amp_sentinel.Prelude.{ℕ, ◌<◌, ◌≡◌, refl, ap, inl, inr, ◌==◌, arith, Bool-cases, ==_iff}
use amp_sentinel.Prelude.Int.{ℤ}
use amp_sentinel.Prelude.Text.{Text, text_eq, text_eq_iff}
use amp_sentinel.Intake.RateLimit.{
  RateTable, Shards, rate_limit_shards, shard_index, rate_step, put, put_shard, check_rate_limit,
}

-- The one table that the shards stand for.
unfoldable pub flat : Shards → RateTable
flat s key = s (shard_index key) key

-- An index is one of the shards of the array.
pub shard_index-lt : (key : Text) → shard_index key < rate_limit_shards
unfolding shard_index
shard_index-lt key = omega arith

-- On the one table, a check makes its step at the entry of its project, answers as that step does, and leaves the
-- entries of all other projects alone.
pub check_rate_limit-flat :
    (s : Shards) (limit : ℤ) (key : Text) (now : ℕ)
    → ((check_rate_limit s limit key now).1 ≡ (rate_step limit (flat s key) now).1)
      × ((other : Text)
          → flat (check_rate_limit s limit key now).0 other
            ≡ put (flat s) key (rate_step limit (flat s key) now).0 other)
unfolding check_rate_limit flat put put_shard
check_rate_limit-flat s limit key now = (
  refl,
  λ other. elim (Bool-cases (text_eq key other)) [
    | inl e ↦
        let same = ap shard_index ((text_eq_iff key other).0 e) in rw (e) (ground (arith, same))
    | inr e ↦ elim (Bool-cases (shard_index key == shard_index other)) [
      | inl b ↦
          let same = ap (λ i. s i other) ((==_iff (shard_index key) (shard_index other)).0 b) in
          rw (b, e) same
      | inr b ↦ rw (b, e) refl
    ]
  ],
)
