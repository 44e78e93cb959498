-- ===== src/Diagnosis/Payload.antt =====
-- diagnosis/fingerprint.go: ComputeDiagnosisFingerprint, the normalised payload and the environment.
use amp_sentinel.Prelude.{List, [], ◌∷◌, ◌++◌, Option, none, some, if◌then◌else◌}
use amp_sentinel.Prelude.Int.{pos}
use amp_sentinel.Prelude.Text.{Text, utf8, is_empty}
use amp_sentinel.Prelude.Runes.{trim_space}
use amp_sentinel.Intake.Json.{
  Json, null, string, array, object, Items, no_items, item, Fields, no_fields, field, lookup,
  split_dots, has_dot,
}
use amp_sentinel.Intake.Fingerprint.{DedupConfig, Codec, compute_fingerprint}
pub mod Environments

-- ReplaceAllString of the four regular expressions, each with its placeholder, and strings.ToLower.
pub record Patterns : Type 0 where
  pub timestamps : Text → Text
  pub uuids : Text → Text
  pub addresses : Text → Text
  pub numbers : Text → Text
  pub to_lower : Text → Text

unfoldable pub step_into_map : Json → Text → Json
step_into_map (object m) seg = lookup m seg
step_into_map _ seg = null

unfoldable pub resolve_segments : Json → List Text → Json
resolve_segments v [] = v
resolve_segments v (seg ∷ path) = resolve_segments (step_into_map v seg) path

unfoldable pub resolve_payload_field : Fields → Text → Json
resolve_payload_field m path =
    if has_dot path then resolve_segments (object m) (split_dots [] path) else lookup m path

unfoldable pub env_candidate_fields : List Text
env_candidate_fields =
    utf8 "environment"
    ∷ utf8 "env"
    ∷ utf8 "deploy_env"
    ∷ utf8 "stage"
    ∷ utf8 "labels.env"
    ∷ utf8 "tags.env"
    ∷ utf8 "tags.environment"
    ∷ []

-- `s, ok := v.(string); ok && s != ""`
unfoldable pub filled_string : Json → Option Text
filled_string (string s) = if is_empty s then none else some s
filled_string _ = none

unfoldable pub dedup_of : List Text → Option DedupConfig
dedup_of [] = none
dedup_of (f ∷ fs) = some (record { fields = f ∷ fs; window = pos 0 })

unfoldable pub with_environment : Text → Text → Text
with_environment base [] = base
with_environment base (c ∷ env) = base ++ b':' ∷ c ∷ env

module _ (codec : Codec) (patterns : Patterns) where
  unfoldable pub normalize_string : Text → Text
  normalize_string s =
      patterns.to_lower (
        trim_space (patterns.numbers (patterns.addresses (patterns.uuids (patterns.timestamps s)))))

  -- normalizeMap and normalizeSlice, which write into the decoded value.
  unfoldable mutual
    unfolding normalize_string

    pub normalize : Json → Json
    normalize (string s) = string (normalize_string s)
    normalize (object m) = object (normalize_map m)
    normalize (array c) = array (normalize_slice c)
    normalize v = v

    pub normalize_map : Fields → Fields
    normalize_map no_fields = no_fields
    normalize_map (field n v m) = field n (normalize v) (normalize_map m)

    pub normalize_slice : Items → Items
    normalize_slice no_items = no_items
    normalize_slice (item v c) = item (normalize v) (normalize_slice c)

  -- json.Marshal does not fail on a decoded value.
  unfoldable pub normalize_payload : Text → Text
  normalize_payload payload = elim (codec.unmarshal payload) [
    | none ↦ payload
    | some m ↦ codec.marshal (object (normalize_map m))
  ]

  unfoldable pub first_filled : Fields → List Text → Text
  first_filled m [] = []
  first_filled m (f ∷ fs) = elim (filled_string (resolve_payload_field m f)) [
    | none ↦ first_filled m fs
    | some s ↦ patterns.to_lower (trim_space s)
  ]

  unfoldable pub extract_environment : Text → Text
  extract_environment payload = elim (codec.unmarshal payload) [
    | none ↦ []
    | some m ↦ first_filled m env_candidate_fields
  ]

  unfoldable pub compute_diagnosis_fingerprint : Text → Text → List Text → List Text → Text
  compute_diagnosis_fingerprint project_key payload fields defaults =
      with_environment
        (compute_fingerprint codec project_key (normalize_payload payload) (dedup_of fields)
          defaults)
        (extract_environment payload)
