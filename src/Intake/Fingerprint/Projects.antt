-- ===== src/Intake/Fingerprint/Projects.antt =====
-- intake/handler.go, ComputeFingerprint: the fingerprints of two projects differ.
use amp_sentinel.Prelude.{
  ℕ, zero, suc, ◌*◌, ◌≡◌, refl, ap, ◌∙◌, sym, not, ◌||◌, inl, inr, List, [], ◌∷◌, ◌++◌, Option,
  none, some, any, take, length, arith, length-append, length-take, Bool-cases, Option-cases,
}
use amp_sentinel.Prelude.Text.{Text, utf8}
use amp_sentinel.Intake.Json.{Fields, has_dot}
use amp_sentinel.Intake.Fingerprint.{
  DedupConfig, Codec, hex, hash_bytes, walk, before_key, digest, digest_walk, fast_fingerprint,
  or_hash, slow_fingerprint, configured, fast_or_slow, event_hash, compute_fingerprint, hash_fields,
  hash_default_fields,
}

pub uncons : (a b : ℕ) (p q : Text) → a ∷ p ≡ b ∷ q → (a ≡ b) × (p ≡ q)
uncons a b p q e = ground (arith, e)

-- Two texts that end in texts of one length are equal only if their fronts are.
pub same_front : (p q x y : Text) → length x ≡ length y → p ++ x ≡ q ++ y → p ≡ q
same_front [] [] x y l e = refl
same_front [] (b ∷ q) x y l e = absurd (omega (arith, l, ap length e, length-append q y))
same_front (a ∷ p) [] x y l e = absurd (omega (arith, l, ap length e, length-append p x))
same_front (a ∷ p) (b ∷ q) x y l e =
    let (head, tail) = uncons a b (p ++ x) (q ++ y) e in
    let rest = same_front p q x y l tail in rw (head, rest) refl

length-hex : (b : Text) → length (hex b) ≡ 2 * length b
unfolding hex
length-hex [] = omega arith
length-hex (c ∷ s) = omega (arith, length-hex s)

module _ (codec : Codec) (sum_size : (b : Text) → length (codec.sha256 b) ≡ 32) where
  abbrev pub IsHash : Text → Type 0
  IsHash h = length h ≡ 16

  hash_bytes-IsHash : (b : Text) → IsHash (hash_bytes codec b)
  unfolding hash_bytes
  hash_bytes-IsHash b =
      omega
        (arith, length-hex (take 8 (codec.sha256 b)), length-take 8 (codec.sha256 b), sum_size b)

  or_hash-IsHash :
      (o : Option Text) (payload : Text)
      → ((h : Text) → o ≡ some h → IsHash h)
      → IsHash (or_hash codec o payload)
  unfolding or_hash
  or_hash-IsHash none payload f = hash_bytes-IsHash payload
  or_hash-IsHash (some h) payload f = f h refl

  digest-IsHash : (r : Text × ℕ) (h : Text) → digest codec r ≡ some h → IsHash h
  unfolding digest
  digest-IsHash (acc, zero) h p = absurd (ground (arith, p))
  digest-IsHash (acc, suc n) h p =
      let same : hash_bytes codec acc ≡ h = ground (arith, p) in rw same at (hash_bytes-IsHash acc)

  slow-IsHash :
      (m : Option Fields) (payload : Text) (fields defaults : List Text)
      → IsHash (slow_fingerprint codec m payload fields defaults)
  unfolding slow_fingerprint
  slow-IsHash none payload fields defaults = hash_bytes-IsHash payload
  slow-IsHash (some m) payload [] defaults =
      or_hash-IsHash _ payload (digest-IsHash (hash_default_fields codec m defaults 2))
  slow-IsHash (some m) payload (f ∷ fs) defaults =
      or_hash-IsHash _ payload (digest-IsHash (hash_fields codec m (f ∷ fs)))

  digest_walk-IsHash : (o : Option (Text × ℕ)) (h : Text) → digest_walk codec o ≡ some h → IsHash h
  unfolding digest_walk
  digest_walk-IsHash none h p = absurd (ground (arith, p))
  digest_walk-IsHash (some r) h p = digest-IsHash r h p

  fast-IsHash :
      (payload : Text) (fields : List Text) (h : Text)
      → fast_fingerprint codec payload fields ≡ some h
      → IsHash h
  unfolding fast_fingerprint
  fast-IsHash payload fields h p =
      elim (Bool-cases (any has_dot fields || not (codec.opens_object payload))) [
        | inl b ↦ absurd (ground (arith, p, b))
        | inr b ↦
            digest_walk-IsHash (walk codec fields before_key [] 0 (codec.tokens payload)) h
              (rw b at p)
      ]

  pub event_hash-IsHash :
      (fields : List Text) (payload : Text) (defaults : List Text)
      → IsHash (event_hash codec fields payload defaults)
  unfolding event_hash fast_or_slow
  event_hash-IsHash (f ∷ fs) payload defaults =
      slow-IsHash (codec.unmarshal payload) payload (f ∷ fs) defaults
  event_hash-IsHash [] payload defaults =
      elim (Option-cases (fast_fingerprint codec payload defaults)) [
        | inl e ↦ rw e (slow-IsHash (codec.unmarshal payload) payload [] defaults)
        | inr (h, e) ↦ rw e (fast-IsHash payload defaults h e)
      ]

  -- With a sum of 32 bytes, two events have the same fingerprint only if they belong to the same project.
  pub compute_fingerprint-project :
      (p q : Text) (x y : Text) (c d : Option DedupConfig) (defaults : List Text)
      → compute_fingerprint codec p x c defaults ≡ compute_fingerprint codec q y d defaults
      → p ≡ q
  unfolding compute_fingerprint
  compute_fingerprint-project p q x y c d defaults e =
      let h = event_hash-IsHash (configured codec c) x defaults in
      let g = event_hash-IsHash (configured codec d) y defaults in
      let fronts = same_front (p ++ utf8 ":") (q ++ utf8 ":") _ _ (h ∙ sym g) e in
      same_front p q (utf8 ":") (utf8 ":") refl fronts
