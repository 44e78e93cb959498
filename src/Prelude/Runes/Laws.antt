-- ===== src/Prelude/Runes/Laws.antt =====
-- Decoding loses no byte, and a rune past ASCII has no ASCII byte.
use amp_sentinel.Prelude.{
  ℕ, ◌≤◌, ◌<◌, ◌≡◌, refl, Bool, true, false, List, [], ◌∷◌, arith, ltb, if◌then◌else◌, Bool-cases,
  inl, inr,
}
use amp_sentinel.Prelude.Text.{Text}
use amp_sentinel.Prelude.Runes.{
  Rune, single, double, triple, quadruple, is_double, is_triple, is_quadruple, decode, bytes_of,
}

-- A rune is one ASCII byte, or stands for bytes past ASCII.
abbrev pub AllHigh : Text → Type 0
AllHigh [] = Unit {0}
AllHigh (c ∷ s) = (0x80 ≤ c) × AllHigh s

pub data IsChunk (r : Rune) : Type 0 where
  ascii : (a : ℕ) → r ≡ single a → a < 0x80 → IsChunk r
  wide : (a : ℕ) (s : Text) → r.bytes ≡ a ∷ s → 0x80 ≤ a → AllHigh s → 0x80 ≤ r.value → IsChunk r

pub data AllChunks : List Rune → Type 0 where
  nil : AllChunks []
  cons : {r : Rune} {rs : List Rune} → IsChunk r → AllChunks rs → AllChunks (r ∷ rs)

pub bytes_of-decode : (s : Text) → bytes_of (decode s) ≡ s
unfolding decode
bytes_of-decode [] = refl
bytes_of-decode (a ∷ []) = refl
bytes_of-decode (a ∷ b ∷ []) = ground (arith, bytes_of-decode (b ∷ []))
bytes_of-decode (a ∷ b ∷ c ∷ []) =
    ground (arith, bytes_of-decode (b ∷ c ∷ []), bytes_of-decode (c ∷ []))
bytes_of-decode (a ∷ b ∷ c ∷ d ∷ s) = ground (
  arith,
  bytes_of-decode (b ∷ c ∷ d ∷ s),
  bytes_of-decode (c ∷ d ∷ s),
  bytes_of-decode (d ∷ s),
  bytes_of-decode s,
)

single-IsChunk : (a : ℕ) → IsChunk (single a)
single-IsChunk a = elim (Bool-cases (ltb a 0x80)) [
  | inl e ↦ ascii a refl (ground arith)
  | inr e ↦ wide a [] refl (ground arith) tt (ground arith)
]

double-IsChunk : (a b : ℕ) → is_double a b ≡ true → IsChunk (double a b)
unfolding is_double
double-IsChunk a b h = wide a (b ∷ []) refl (ground arith) (ground arith) (ground arith)

triple-IsChunk : (a b c : ℕ) → is_triple a b c ≡ true → IsChunk (triple a b c)
unfolding is_triple
triple-IsChunk a b c h = wide a (b ∷ c ∷ []) refl (ground arith) (ground arith) (ground arith)

quadruple-IsChunk : (a b c d : ℕ) → is_quadruple a b c d ≡ true → IsChunk (quadruple a b c d)
unfolding is_quadruple
quadruple-IsChunk a b c d h =
    wide a (b ∷ c ∷ d ∷ []) refl (ground arith) (ground arith) (ground arith)

if-AllChunks :
    (t : Bool) {xs ys : List Rune}
    → (t ≡ true → AllChunks xs)
    → AllChunks ys
    → AllChunks (if t then xs else ys)
if-AllChunks true f g = f refl
if-AllChunks false f g = g

pub decode-AllChunks : (s : Text) → AllChunks (decode s)
unfolding decode
decode-AllChunks [] = nil
decode-AllChunks (a ∷ []) = cons (single-IsChunk a) nil
decode-AllChunks (a ∷ b ∷ []) =
    if-AllChunks (is_double a b) (λ h. cons (double-IsChunk a b h) nil)
      (cons (single-IsChunk a) (decode-AllChunks (b ∷ [])))
decode-AllChunks (a ∷ b ∷ c ∷ []) =
    if-AllChunks (is_double a b) (λ h. cons (double-IsChunk a b h) (decode-AllChunks (c ∷ [])))
      (if-AllChunks (is_triple a b c) (λ h. cons (triple-IsChunk a b c h) nil)
        (cons (single-IsChunk a) (decode-AllChunks (b ∷ c ∷ []))))
decode-AllChunks (a ∷ b ∷ c ∷ d ∷ s) =
    if-AllChunks (is_double a b) (λ h. cons (double-IsChunk a b h) (decode-AllChunks (c ∷ d ∷ s)))
      (if-AllChunks (is_triple a b c)
        (λ h. cons (triple-IsChunk a b c h) (decode-AllChunks (d ∷ s)))
        (if-AllChunks (is_quadruple a b c d)
          (λ h. cons (quadruple-IsChunk a b c d h) (decode-AllChunks s))
          (cons (single-IsChunk a) (decode-AllChunks (b ∷ c ∷ d ∷ s)))))
