-- ===== src/Diagnosis/Payload/Environments.antt =====
-- diagnosis/fingerprint.go, ComputeDiagnosisFingerprint: what two equal fingerprints of a project share.
use amp_sentinel.Prelude.{
  ℕ, ◌+◌, ◌≡◌, refl, sym, ◌∙◌, List, [], ◌∷◌, ◌++◌, Option, length, arith, length-append,
}
use amp_sentinel.Prelude.Text.{Text, utf8}
use amp_sentinel.Intake.Fingerprint.{
  DedupConfig, Codec, configured, event_hash, compute_fingerprint,
}
use amp_sentinel.Intake.Fingerprint.Projects.{uncons, event_hash-IsHash}
use amp_sentinel.Diagnosis.Payload.{
  Patterns, with_environment, normalize_payload, dedup_of, extract_environment,
  compute_diagnosis_fingerprint,
}

pushed : (a : ℕ) (base env : Text) → with_environment (a ∷ base) env ≡ a ∷ with_environment base env
unfolding with_environment
pushed a base [] = refl
pushed a base (c ∷ env) = refl

same_environment :
    (b d : Text) (e f : Text)
    → length b ≡ length d
    → with_environment b e ≡ with_environment d f
    → (b ≡ d) × (e ≡ f)
unfolding with_environment
same_environment [] [] [] [] l h = (refl, refl)
same_environment [] [] [] (c ∷ f) l h = absurd (ground (arith, h))
same_environment [] [] (c ∷ e) [] l h = absurd (ground (arith, h))
same_environment [] [] (c ∷ e) (g ∷ f) l h = ground (arith, h)
same_environment [] (y ∷ d) e f l h = absurd (omega arith)
same_environment (x ∷ b) [] e f l h = absurd (omega arith)
same_environment (x ∷ b) (y ∷ d) e f l h =
    let (head, tail) = uncons x y _ _ (sym (pushed x b e) ∙ h ∙ pushed y d f) in
    let (bases, envs) = same_environment b d e f (omega arith) tail in (rw (head, bases) refl, envs)

colon : length (utf8 ":") ≡ 1
unfolding utf8
colon = refl

module _ (codec : Codec) (sum_size : (b : Text) → length (codec.sha256 b) ≡ 32) where
  length-compute_fingerprint :
      (key payload : Text) (cfg : Option DedupConfig) (defaults : List Text)
      → length (compute_fingerprint codec key payload cfg defaults) ≡ length key + 17
  unfolding compute_fingerprint
  length-compute_fingerprint key payload cfg defaults =
      let hash = event_hash codec (configured codec cfg) payload defaults in
      omega (
        arith,
        length-append key (utf8 ":"),
        length-append (key ++ utf8 ":") hash,
        event_hash-IsHash codec sum_size (configured codec cfg) payload defaults,
        colon,
      )

  -- With a sum of 32 bytes, two payloads of one project have the same diagnosis fingerprint only if they name the same environment and
  -- their normalised payloads have the same fingerprint.
  pub compute_diagnosis_fingerprint-environment :
      (patterns : Patterns) (key x y : Text) (fields defaults : List Text)
      → compute_diagnosis_fingerprint codec patterns key x fields defaults
        ≡ compute_diagnosis_fingerprint codec patterns key y fields defaults
      → (extract_environment codec patterns x ≡ extract_environment codec patterns y)
        × (compute_fingerprint codec key
              (normalize_payload codec patterns x)
              (dedup_of fields)
              defaults
            ≡ compute_fingerprint codec key
                (normalize_payload codec patterns y)
                (dedup_of fields)
                defaults)
  unfolding compute_diagnosis_fingerprint
  compute_diagnosis_fingerprint-environment patterns key x y fields defaults e =
      let cfg = dedup_of fields in
      let base = λ (p : Text).
        compute_fingerprint codec key (normalize_payload codec patterns p) cfg defaults in
      let (bases, envs) =
        same_environment (base x) (base y) _ _
          (length-compute_fingerprint key (normalize_payload codec patterns x) cfg defaults
            ∙ sym
                (length-compute_fingerprint key (normalize_payload codec patterns y) cfg defaults))
          e in
      (envs, bases)
