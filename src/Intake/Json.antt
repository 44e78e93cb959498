-- ===== src/Intake/Json.antt =====
-- intake/types.go: decoded JSON values, resolveField, isScalar and the searches for a display field.
use mathlib.Core.List.{reverse}
use amp_sentinel.Prelude.{
  ℕ, zero, suc, ◌+◌, ◌-◌, ◌*◌, Bool, true, false, List, [], ◌∷◌, Option, none, some, ◌==◌,
  if◌then◌else◌, any,
}
use amp_sentinel.Prelude.Text.{Text, utf8, text_eq, is_empty}
use amp_sentinel.Prelude.Runes.{between}
use amp_sentinel.Diagnosis.Types.{Float64}

-- What json.Unmarshal makes of a value; `null` is Go's nil. The keys of an object are distinct, as a map's are.
mutual
  pub data Json : Type 0 where
    null : Json
    boolean : Bool → Json
    number : Float64 → Json
    string : Text → Json
    array : Items → Json
    object : Fields → Json

  pub data Items : Type 0 where
    no_items : Items
    item : Json → Items → Items

  pub data Fields : Type 0 where
    no_fields : Fields
    field : Text → Json → Fields → Fields

-- `m[key]`
unfoldable pub lookup : Fields → Text → Json
lookup no_fields k = null
lookup (field n v m) k = let rest = lookup m k in if text_eq n k then v else rest

-- `c[idx]`, and nil past the end.
unfoldable pub item_at : Items → ℕ → Json
item_at no_items i = null
item_at (item v c) zero = v
item_at (item v c) (suc i) = item_at c i

unfoldable pub digits : ℕ → Text → Option ℕ
digits n [] = some n
digits n (c ∷ s) =
    let rest = digits (10 * n + (c - b'0')) s in if between b'0' b'9' c then rest else none

unfoldable pub number_of : Text → Option ℕ
number_of [] = none
number_of (c ∷ s) = digits 0 (c ∷ s)

-- strconv.Atoi of an index: nothing for a text that is no number and for a negative one. A number that overflows
-- Go's int is past the end of every array.
unfoldable pub index_of : Text → Option ℕ
index_of [] = none
index_of (c ∷ s) =
    if c == b'+'
    then number_of s
    else if c == b'-'
    then minus_zero (number_of s)
    else number_of (c ∷ s)
  where
    minus_zero : Option ℕ → Option ℕ
    minus_zero none = none
    minus_zero (some zero) = some 0
    minus_zero (some (suc n)) = none

-- One segment of a path: a value that is neither an object nor an array has no parts, so nil stays nil.
unfoldable pub step_into : Json → Text → Json
step_into (object m) seg = lookup m seg
step_into (array c) seg = elim (index_of seg) [ none ↦ null | some i ↦ item_at c i ]
step_into _ seg = null

unfoldable pub resolve_from : Json → List Text → Json
resolve_from v [] = v
resolve_from v (seg ∷ path) = resolve_from (step_into v seg) path

-- The texts between the dots; `word` is the reversed text read since the last one.
unfoldable pub split_dots : Text → Text → List Text
split_dots word [] = reverse word ∷ []
split_dots word (c ∷ s) =
    let here = reverse word ∷ split_dots [] s in
    let on = split_dots (c ∷ word) s in if c == b'.' then here else on

unfoldable pub has_dot : Text → Bool
has_dot = any (λ c. c == b'.')

unfoldable pub resolve_field : Fields → Text → Json
resolve_field m path =
    if has_dot path then resolve_from (object m) (split_dots [] path) else lookup m path

unfoldable pub is_null : Json → Bool
is_null null = true
is_null _ = false

unfoldable pub is_scalar : Json → Bool
is_scalar (string s) = true
is_scalar (number n) = true
is_scalar (boolean b) = true
is_scalar _ = false

unfoldable pub bool_text : Bool → Text
bool_text true = utf8 "true"
bool_text false = utf8 "false"

-- What findScalarField takes from a value; `format_f` is strconv.FormatFloat(v, 'f', -1, 64).
unfoldable pub scalar_text : (Float64 → Text) → Json → Option Text
scalar_text format_f (string s) = if is_empty s then none else some s
scalar_text format_f (number n) = some (format_f n)
scalar_text format_f (boolean b) = some (bool_text b)
scalar_text format_f _ = none

unfoldable pub or_text : Option Text → Text → Text
or_text (some s) t = s
or_text none t = t

unfoldable pub find_scalar_field : (Float64 → Text) → Fields → List Text → Text
find_scalar_field format_f m [] = []
find_scalar_field format_f m (path ∷ paths) =
    or_text (scalar_text format_f (resolve_field m path)) (find_scalar_field format_f m paths)

unfoldable pub find_field : Fields → List Text → Json
find_field m [] = null
find_field m (path ∷ paths) =
    let v = resolve_field m path in let rest = find_field m paths in if is_null v then rest else v
