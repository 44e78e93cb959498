-- ===== src/Prelude/Runes.antt =====
-- The runes of a Go string, as `range` and `[]rune` decode it, and `strings.TrimSpace`.
pub mod Laws
pub mod RoundTrip
use amp_sentinel.Prelude.{
  ℕ, ◌+◌, ◌*◌, ◌-◌, Bool, ◌&&◌, ◌||◌, List, map, [], ◌∷◌, ◌++◌, ltb, leb, ◌==◌, if◌then◌else◌,
}
use amp_sentinel.Prelude.Text.{Text, utf8_encode}

abbrev pub between : ℕ → ℕ → ℕ → Bool
between lo hi c = leb lo c && leb c hi

-- The least and greatest second byte that may follow a lead byte of three or four.
unfoldable pub second_min : ℕ → ℕ
second_min a = if a == 0xE0 then 0xA0 else if a == 0xF0 then 0x90 else 0x80

unfoldable pub second_max : ℕ → ℕ
second_max a = if a == 0xED then 0x9F else if a == 0xF4 then 0x8F else 0xBF

-- A decoded rune with the bytes that it stands for; an invalid byte is U+FFFD.
pub record Rune : Type 0 where
  pub value : ℕ
  pub bytes : Text

abbrev pub single : ℕ → Rune
single a = record { value = if ltb a 0x80 then a else 0xFFFD; bytes = a ∷ [] }

abbrev pub double : ℕ → ℕ → Rune
double a b = record { value = (a - 0xC0) * 64 + (b - 0x80); bytes = a ∷ b ∷ [] }

abbrev pub triple : ℕ → ℕ → ℕ → Rune
triple a b c = record {
  value = (a - 0xE0) * 4096 + (b - 0x80) * 64 + (c - 0x80);
  bytes = a ∷ b ∷ c ∷ [];
}

abbrev pub quadruple : ℕ → ℕ → ℕ → ℕ → Rune
quadruple a b c d = record {
  value = (a - 0xF0) * 262144 + (b - 0x80) * 4096 + (c - 0x80) * 64 + (d - 0x80);
  bytes = a ∷ b ∷ c ∷ d ∷ [];
}

unfoldable pub is_double : ℕ → ℕ → Bool
is_double a b = between 0xC2 0xDF a && between 0x80 0xBF b

unfoldable pub is_triple : ℕ → ℕ → ℕ → Bool
unfolding second_min second_max
is_triple a b c =
    between 0xE0 0xEF a && between (second_min a) (second_max a) b && between 0x80 0xBF c

unfoldable pub is_quadruple : ℕ → ℕ → ℕ → ℕ → Bool
unfolding second_min second_max
is_quadruple a b c d =
    between 0xF0 0xF4 a
    && between (second_min a) (second_max a) b
    && between 0x80 0xBF c
    && between 0x80 0xBF d

-- The decoding that `range` and `[]rune` make of a string.
unfoldable pub decode : Text → List Rune
unfolding is_double is_triple is_quadruple
decode [] = []
decode (a ∷ []) = single a ∷ []
decode (a ∷ b ∷ []) =
    let one = decode (b ∷ []) in if is_double a b then double a b ∷ [] else single a ∷ one
decode (a ∷ b ∷ c ∷ []) =
    let one = decode (b ∷ c ∷ []) in
    let two = decode (c ∷ []) in
    if is_double a b
    then double a b ∷ two
    else if is_triple a b c
    then triple a b c ∷ []
    else single a ∷ one
decode (a ∷ b ∷ c ∷ d ∷ s) =
    let one = decode (b ∷ c ∷ d ∷ s) in
    let two = decode (c ∷ d ∷ s) in
    let three = decode (d ∷ s) in
    let four = decode s in
    if is_double a b
    then double a b ∷ two
    else if is_triple a b c
    then triple a b c ∷ three
    else if is_quadruple a b c d
    then quadruple a b c d ∷ four
    else single a ∷ one

-- `[]rune(s)`
unfoldable pub runes : Text → List ℕ
unfolding decode
runes s = map (λ r. r.value) (decode s)

abbrev pub bytes_of : List Rune → Text
bytes_of [] = []
bytes_of (r ∷ rs) = r.bytes ++ bytes_of rs

-- `strings.TrimSpace`: the runes that unicode.IsSpace accepts go, at both ends.
unfoldable pub is_space : ℕ → Bool
is_space c =
    between 0x09 0x0D c
    || c == 0x20
    || c == 0x85
    || c == 0xA0
    || c == 0x1680
    || between 0x2000 0x200A c
    || between 0x2028 0x2029 c
    || c == 0x202F
    || c == 0x205F
    || c == 0x3000

unfoldable pub trim_left : List Rune → List Rune
unfolding is_space
trim_left [] = []
trim_left (r ∷ rs) = let rest = trim_left rs in if is_space r.value then rest else r ∷ rs

unfoldable pub before_kept : Rune → List Rune → List Rune
unfolding is_space
before_kept r [] = if is_space r.value then [] else r ∷ []
before_kept r (x ∷ xs) = r ∷ x ∷ xs

unfoldable pub trim_right : List Rune → List Rune
unfolding before_kept
trim_right [] = []
trim_right (r ∷ rs) = before_kept r (trim_right rs)

unfoldable pub trim_space : Text → Text
unfolding decode trim_left trim_right
trim_space s = bytes_of (trim_right (trim_left (decode s)))

-- `string(runes)`: surrogates and values past U+10FFFF become U+FFFD.
unfoldable pub from_runes : List ℕ → Text
unfolding utf8_encode
from_runes [] = []
from_runes (r ∷ rs) =
    utf8_encode (if between 0xD800 0xDFFF r || ltb 0x10FFFF r then 0xFFFD else r) ++ from_runes rs
