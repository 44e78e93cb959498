-- ===== src/Intake/Dedup.antt =====
-- intake/handler.go: the table of fingerprints seen, checkDedupWithWindow, and what the clean-up loop takes out.
use amp_sentinel.Prelude.{
  ℕ, suc, ◌+◌, ◌-◌, Bool, true, false, not, ◌&&◌, List, [], ◌∷◌, Option, none, some, ◌==◌,
  if◌then◌else◌, select, length,
}
use amp_sentinel.Prelude.Int.{ℤ, pos, negsuc}
use amp_sentinel.Prelude.Text.{Text, text_eq}
use amp_sentinel.Intake.Clock.{has_passed}
pub mod Spacing

pub record DedupEntry : Type 0 where
  pub at : ℕ
  pub window : ℤ

-- The sync.Map of the handler. Its size is kept beside it in the source, and nothing depends on it.
abbrev pub DedupTable : Type 0
DedupTable = Text → Option DedupEntry

abbrev pub load : DedupTable → Text → Option DedupEntry
load t k = t k

unfoldable pub store : DedupTable → Text → DedupEntry → DedupTable
store t k e j = if text_eq k j then some e else t j

unfoldable pub int_eq : ℤ → ℤ → Bool
int_eq (pos m) (pos n) = m == n
int_eq (negsuc m) (negsuc n) = m == n
int_eq _ _ = false

unfoldable pub same_entry : DedupEntry → DedupEntry → Bool
same_entry d e = d.at == e.at && int_eq d.window e.window

-- sync.Map.CompareAndSwap
unfoldable pub holds : Option DedupEntry → DedupEntry → Bool
holds none e = false
holds (some d) e = same_entry d e

unfoldable pub compare_and_swap : DedupTable → Text → DedupEntry → DedupEntry → DedupTable × Bool
compare_and_swap t k old new = if holds (load t k) old then (store t k new, true) else (t, false)

-- checkDedupWithWindow after LoadOrStore: `existing` is what was there, and `between` is what the other goroutines do
-- to the table from then until CompareAndSwap. The clock shows `now` at first, and `later` when the window is tested.
unfoldable pub decide :
    Option DedupEntry
    → DedupTable
    → Text
    → ℤ
    → ℕ
    → ℕ
    → (DedupTable → DedupTable)
    → DedupTable × Bool
decide none t k window now later between = (store t k (record { at = now; window = window }), true)
decide (some prev) t k window now later between =
    if has_passed prev.at window later
    then compare_and_swap (between t) k prev (record { at = now; window = window })
    else (t, false)

unfoldable pub check_dedup_with_window :
    DedupTable → Text → ℤ → ℕ → ℕ → (DedupTable → DedupTable) → DedupTable × Bool
check_dedup_with_window t k window now later between =
    decide (load t k) t k window now later between

unfoldable pub unless_passed : ℕ → Option DedupEntry → Option DedupEntry
unless_passed now none = none
unless_passed now (some e) = if has_passed e.at e.window now then none else some e

-- The dedup half of cleanupLoop.
unfoldable pub clean_dedup : DedupTable → ℕ → DedupTable
clean_dedup t now k = unless_passed now (t k)
