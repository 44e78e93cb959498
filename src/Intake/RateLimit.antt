-- ===== src/Intake/RateLimit.antt =====
-- intake/handler.go: the sharded rate limit by project, checkRateLimit and shardIndex, and its clean-up.
use Prim.Native.Nat.{bit_xor}
use amp_sentinel.Prelude.{
  ℕ, zero, suc, ◌+◌, ◌*◌, ◌%◌, ◌^◌, Bool, true, false, not, ◌&&◌, List, [], ◌∷◌, Option, none, some,
  leb, ◌==◌, if◌then◌else◌,
}
use amp_sentinel.Prelude.Int.{ℤ, pos, negsuc, leb_ℤ}
use amp_sentinel.Prelude.Text.{Text, text_eq}
use amp_sentinel.Intake.Clock.{has_passed, hour}
pub mod Sharding
pub mod Bound

pub record RateEntry : Type 0 where
  pub count : ℕ
  pub window_at : ℕ

-- `rateShard.count`
abbrev pub RateTable : Type 0
RateTable = Text → Option RateEntry

-- The shards by their index.
abbrev pub Shards : Type 0
Shards = ℕ → RateTable

abbrev pub rate_limit_shards : ℕ
rate_limit_shards = 64

-- fnv.New32a: the offset basis, and one byte of the hash.
abbrev pub fnv_offset : ℕ
fnv_offset = 2166136261

unfoldable pub fnv_step : ℕ → ℕ → ℕ
fnv_step h c = bit_xor h c * 16777619 % 2 ^ 32

unfoldable pub fnv32a : ℕ → Text → ℕ
fnv32a h [] = h
fnv32a h (c ∷ s) = fnv32a (fnv_step h c) s

unfoldable pub shard_index : Text → ℕ
shard_index key = fnv32a fnv_offset key % rate_limit_shards

-- What checkRateLimit does to the entry of the project: the new entry, and whether the event may pass.
unfoldable pub rate_step : ℤ → Option RateEntry → ℕ → Option RateEntry × Bool
rate_step limit none now = (some (record { count = 1; window_at = now }), true)
rate_step limit (some e) now =
    if has_passed e.window_at (pos hour) now
    then (some (record { count = 1; window_at = now }), true)
    else if leb_ℤ limit (pos e.count)
    then (some e, false)
    else (some (record e { count = e.count + 1 }), true)

unfoldable pub put : RateTable → Text → Option RateEntry → RateTable
put t k e j = if text_eq k j then e else t j

unfoldable pub put_shard : Shards → ℕ → RateTable → Shards
put_shard s i t j = if i == j then t else s j

unfoldable pub check_rate_limit : Shards → ℤ → Text → ℕ → Shards × Bool
check_rate_limit s limit key now =
    let i = shard_index key in
    let (e, ok) = rate_step limit (s i key) now in (put_shard s i (put (s i) key e), ok)

unfoldable pub unless_hour_passed : ℕ → Option RateEntry → Option RateEntry
unless_hour_passed now none = none
unless_hour_passed now (some e) = if has_passed e.window_at (pos hour) now then none else some e

-- The rate half of cleanupLoop.
unfoldable pub clean_rate : Shards → ℕ → Shards
clean_rate s now i k = unless_hour_passed now (s i k)
