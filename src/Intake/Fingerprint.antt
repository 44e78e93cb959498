-- ===== src/Intake/Fingerprint.antt =====
-- intake/handler.go: ComputeFingerprint, with its fast path and the two hashes over decoded fields.
use amp_sentinel.Prelude.{
  ℕ, zero, suc, ◌+◌, ◌-◌, ◌*◌, ◌/◌, ◌%◌, Bool, true, false, not, ◌&&◌, ◌||◌, List, [], ◌∷◌, ◌++◌,
  Option, none, some, ltb, leb, ◌==◌, if◌then◌else◌, any, take,
}
use amp_sentinel.Prelude.Int.{ℤ}
use amp_sentinel.Prelude.Text.{Text, utf8, text_eq, is_empty, one_of}
use amp_sentinel.Diagnosis.Types.{Float64}
use amp_sentinel.Intake.Json.{
  Json, string, number, boolean, Fields, resolve_field, is_null, is_scalar, has_dot, bool_text,
}
pub mod Projects

-- handler.go, DedupConfig
pub record DedupConfig : Type 0 where
  pub fields : List Text
  pub window : ℤ

-- What json.Decoder.Token reads: a bracket that opens or closes, a value that is no container, or an error.
pub data Token : Type 0 where
  opens closes : Token
  text_token : Text → Token
  number_token : Float64 → Token
  bool_token : Bool → Token
  null_token : Token
  bad_token : Token

-- The libraries that the fingerprint rests on: `%g`, sha256.Sum256, json.Marshal, json.Unmarshal into a map, and the
-- tokens that a json.Decoder reads of a text, of which the first opens an object where `opens_object` says so.
pub record Codec : Type 0 where
  pub format_g : Float64 → Text
  pub sha256 : Text → Text
  pub marshal : Json → Text
  pub unmarshal : Text → Option Fields
  pub opens_object : Text → Bool
  pub tokens : Text → List Token

unfoldable pub hex_digit : ℕ → ℕ
hex_digit n = if ltb n 10 then b'0' + n else b'a' + (n - 10)

-- hex.EncodeToString
unfoldable pub hex : Text → Text
hex [] = []
hex (c ∷ s) = hex_digit (c / 16) ∷ hex_digit (c % 16) ∷ hex s

module _ (codec : Codec) where
  -- hashBytes, and the end of the incremental hashes.
  unfoldable pub hash_bytes : Text → Text
  hash_bytes b = hex (take 8 (codec.sha256 b))

  -- writeScalarToHash
  unfoldable pub scalar_bytes : Json → Text
  scalar_bytes (string s) = s
  scalar_bytes (number n) = codec.format_g n
  scalar_bytes (boolean b) = bool_text b
  scalar_bytes v = codec.marshal v

  -- What is written to the hash for one field.
  unfoldable pub written : Text → Text → Text
  written name value = name ++ utf8 "=" ++ value ++ utf8 "|"

  -- hashFieldsIncremental up to the sum: what was written, and the number of fields found.
  unfoldable pub hash_fields : Fields → List Text → Text × ℕ
  hash_fields m [] = ([], 0)
  hash_fields m (f ∷ fs) =
      let v = resolve_field m f in
      let (rest, n) = hash_fields m fs in
      if is_null v then (rest, n) else (written f (scalar_bytes v) ++ rest, n + 1)

  -- hashDefaultFieldsIncremental up to the sum, with `most` more fields to take.
  unfoldable pub hash_default_fields : Fields → List Text → ℕ → Text × ℕ
  hash_default_fields m [] most = ([], 0)
  hash_default_fields m (f ∷ fs) zero = ([], 0)
  hash_default_fields m (f ∷ fs) (suc most) =
      let v = resolve_field m f in
      let skipped = hash_default_fields m fs (suc most) in
      let (rest, n) = hash_default_fields m fs most in
      if is_null v || not (is_scalar v)
      then skipped
      else (written f (scalar_bytes v) ++ rest, n + 1)

  -- Where fastFingerprint stands in the tokens: before a key, before the value of a wanted key or of another, or in
  -- a container that it skips.
  pub data Mode : Type 0 where
    before_key : Mode
    before_wanted : Text → Mode
    before_other : Mode
    inside : ℕ → Mode

  -- The loop of fastFingerprint: nothing on an error, otherwise what was written and the number of fields found.
  unfoldable pub walk : List Text → Mode → Text → ℕ → List Token → Option (Text × ℕ)
  walk fields before_key acc n [] = some (acc, n)
  walk fields before_key acc n (closes ∷ ts) = some (acc, n)
  walk fields before_key acc n (text_token key ∷ ts) =
      let wanted = walk fields (before_wanted key) acc n ts in
      let other = walk fields before_other acc n ts in
      if leb 2 n then some (acc, n) else if one_of fields key then wanted else other
  walk fields before_key acc n (_ ∷ ts) = if leb 2 n then some (acc, n) else none
  walk fields (before_wanted key) acc n (text_token v ∷ ts) =
      walk fields before_key (acc ++ written key v) (n + 1) ts
  walk fields (before_wanted key) acc n (number_token v ∷ ts) =
      walk fields before_key (acc ++ written key (codec.format_g v)) (n + 1) ts
  walk fields (before_wanted key) acc n (bool_token v ∷ ts) =
      walk fields before_key (acc ++ written key (bool_text v)) (n + 1) ts
  walk fields (before_wanted key) acc n (null_token ∷ ts) = walk fields before_key acc n ts
  walk fields (before_wanted key) acc n (opens ∷ ts) = walk fields (inside 1) acc n ts
  walk fields (before_wanted key) acc n _ = none
  walk fields before_other acc n (opens ∷ ts) = walk fields (inside 1) acc n ts
  walk fields before_other acc n (closes ∷ ts) = none
  walk fields before_other acc n (bad_token ∷ ts) = none
  walk fields before_other acc n (_ ∷ ts) = walk fields before_key acc n ts
  walk fields before_other acc n [] = none
  walk fields (inside d) acc n (opens ∷ ts) = walk fields (inside (d + 1)) acc n ts
  walk fields (inside d) acc n (closes ∷ ts) =
      let out = walk fields before_key acc n ts in
      let on = walk fields (inside (d - 1)) acc n ts in if leb d 1 then out else on
  walk fields (inside d) acc n (bad_token ∷ ts) = none
  walk fields (inside d) acc n (_ ∷ ts) = walk fields (inside d) acc n ts
  walk fields (inside d) acc n [] = none

  -- A sum over the fields found, if there are any.
  unfoldable pub digest : Text × ℕ → Option Text
  digest (acc, zero) = none
  digest (acc, suc n) = some (hash_bytes acc)

  unfoldable pub digest_walk : Option (Text × ℕ) → Option Text
  digest_walk none = none
  digest_walk (some r) = digest r

  -- fastFingerprint without the project key and the colon.
  unfoldable pub fast_fingerprint : Text → List Text → Option Text
  fast_fingerprint payload fields =
      if any has_dot fields || not (codec.opens_object payload)
      then none
      else digest_walk (walk fields before_key [] 0 (codec.tokens payload))

  unfoldable pub or_hash : Option Text → Text → Text
  or_hash (some fp) payload = fp
  or_hash none payload = hash_bytes payload

  -- The slow path without the project key and the colon, with the fields of the project's configuration, or none.
  unfoldable pub slow_fingerprint : Option Fields → Text → List Text → List Text → Text
  slow_fingerprint none payload fields defaults = hash_bytes payload
  slow_fingerprint (some m) payload [] defaults =
      or_hash (digest (hash_default_fields m defaults 2)) payload
  slow_fingerprint (some m) payload (f ∷ fs) defaults =
      or_hash (digest (hash_fields m (f ∷ fs))) payload

  unfoldable pub configured : Option DedupConfig → List Text
  configured none = []
  configured (some c) = c.fields

  unfoldable pub fast_or_slow : Option Text → Text → List Text → Text
  fast_or_slow (some fp) payload defaults = fp
  fast_or_slow none payload defaults =
      slow_fingerprint (codec.unmarshal payload) payload [] defaults

  unfoldable pub event_hash : List Text → Text → List Text → Text
  event_hash [] payload defaults = fast_or_slow (fast_fingerprint payload defaults) payload defaults
  event_hash (f ∷ fs) payload defaults =
      slow_fingerprint (codec.unmarshal payload) payload (f ∷ fs) defaults

  unfoldable pub compute_fingerprint : Text → Text → Option DedupConfig → List Text → Text
  compute_fingerprint project_key payload cfg defaults =
      project_key ++ utf8 ":" ++ event_hash (configured cfg) payload defaults
