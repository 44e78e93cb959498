-- ===== src/Prelude/Runes/RoundTrip.antt =====
-- Encoding runes and decoding the result gives the runes back.
use mathlib.Core.List.{append_assoc}
use amp_sentinel.Prelude.{
  zero, suc, take, ℕ, ◌+◌, ◌/◌, ◌%◌, ◌≤◌, ◌<◌, ◌≡◌, refl, sym, ap, ◌∙◌, ◌⊎◌, inl, inr, Bool, true,
  false, ◌||◌, List, [], ◌∷◌, ◌++◌, map, arith, ltb, if◌then◌else◌, Bool-cases,
}
use amp_sentinel.Prelude.Text.{Text, utf8_encode}
use amp_sentinel.Prelude.Runes.{
  Rune, between, single, double, triple, quadruple, is_double, is_triple, is_quadruple, decode,
  runes, from_runes,
}

-- A code point that is no surrogate.
abbrev pub IsScalar : ℕ → Type 0
IsScalar c = (c ≤ 0x10FFFF) × ((c < 0xD800) ⊎ (0xDFFF < c))

decode_one : (c : ℕ) (s : Text) → c < 0x80 → decode (c ∷ s) ≡ single c ∷ decode s
unfolding decode
decode_one c [] h = refl
decode_one c (x ∷ []) h = ground arith
decode_one c (x ∷ y ∷ []) h = ground arith
decode_one c (x ∷ y ∷ z ∷ s) h = ground arith

decode_two :
    (a b : ℕ) (s : Text) → is_double a b ≡ true → decode (a ∷ b ∷ s) ≡ double a b ∷ decode s
unfolding decode
decode_two a b [] h = rw h
decode_two a b (y ∷ []) h = rw h
decode_two a b (y ∷ z ∷ s) h = rw h

decode_three :
    (a b c : ℕ) (s : Text)
    → is_triple a b c ≡ true
    → decode (a ∷ b ∷ c ∷ s) ≡ triple a b c ∷ decode s
unfolding decode
decode_three a b c [] h = ground arith
decode_three a b c (z ∷ s) h = ground arith

decode_four :
    (a b c d : ℕ) (s : Text)
    → is_quadruple a b c d ≡ true
    → decode (a ∷ b ∷ c ∷ d ∷ s) ≡ quadruple a b c d ∷ decode s
unfolding decode
decode_four a b c d s h = ground arith

two_bytes : (c : ℕ) → 0x80 ≤ c → c < 0x800 → is_double (0xC0 + c / 64) (0x80 + c % 64) ≡ true
unfolding is_double
two_bytes c h k = ground arith

three_bytes :
    (c : ℕ)
    → 0x800 ≤ c
    → c < 0x10000
    → (c < 0xD800) ⊎ (0xDFFF < c)
    → is_triple (0xE0 + c / 4096) (0x80 + c / 64 % 64) (0x80 + c % 64) ≡ true
unfolding is_triple
three_bytes c h k (inl l) = ground arith
three_bytes c h k (inr l) = ground arith

four_bytes :
    (c : ℕ)
    → 0x10000 ≤ c
    → c ≤ 0x10FFFF
    → is_quadruple (0xF0 + c / 262144) (0x80 + c / 4096 % 64) (0x80 + c / 64 % 64) (0x80 + c % 64)
      ≡ true
unfolding is_quadruple
four_bytes c h k = ground arith

abbrev values : List Rune → List ℕ
values = map (λ r. r.value)

runes-utf8_encode :
    (c : ℕ) (s : Text) → IsScalar c → values (decode (utf8_encode c ++ s)) ≡ c ∷ values (decode s)
unfolding utf8_encode
runes-utf8_encode c s h = elim (Bool-cases (ltb c 0x80)) [
  | inl e ↦ rw e (ap values (decode_one c s (ground arith)) ∙ rw e)
  | inr e ↦ elim (Bool-cases (ltb c 0x800)) [
    | inl f ↦
        rw (e, f)
          (ap values (decode_two _ _ s (two_bytes c (ground arith) (ground arith)))
            ∙ ap (λ x. x ∷ values (decode s)) (omega arith))
    | inr f ↦ elim (Bool-cases (ltb c 0x10000)) [
      | inl g ↦
          rw (e, f, g)
            (ap values (decode_three _ _ _ s (three_bytes c (ground arith) (ground arith) h.1))
              ∙ ap (λ x. x ∷ values (decode s)) (omega arith))
      | inr g ↦
          rw (e, f, g)
            (ap values (decode_four _ _ _ _ s (four_bytes c (ground arith) h.0))
              ∙ ap (λ x. x ∷ values (decode s)) (omega arith))
    ]
  ]
]

abbrev pub AllScalars : List ℕ → Type 0
AllScalars [] = Unit {0}
AllScalars (c ∷ cs) = IsScalar c × AllScalars cs

pub take-AllScalars : (n : ℕ) (cs : List ℕ) → AllScalars cs → AllScalars (take n cs)
take-AllScalars zero cs h = tt
take-AllScalars (suc n) [] h = tt
take-AllScalars (suc n) (c ∷ cs) h = (h.0, take-AllScalars n cs h.1)

pub runes-from_runes : (cs : List ℕ) → AllScalars cs → runes (from_runes cs) ≡ cs
unfolding from_runes runes
runes-from_runes [] h = unfold decode in refl
runes-from_runes (c ∷ cs) h =
    let kept : (if between 0xD800 0xDFFF c || ltb 0x10FFFF c then 0xFFFD else c) ≡ c =
      ground arith in
    rw kept (runes-utf8_encode c (from_runes cs) h.0 ∙ ap (◌∷◌ c) (runes-from_runes cs h.1))

single-IsScalar : (a : ℕ) → IsScalar (single a).value
single-IsScalar a = ground arith

double-IsScalar : (a b : ℕ) → is_double a b ≡ true → IsScalar (double a b).value
unfolding is_double
double-IsScalar a b h = ground arith

triple-IsScalar : (a b c : ℕ) → is_triple a b c ≡ true → IsScalar (triple a b c).value
unfolding is_triple
triple-IsScalar a b c h = ground arith

quadruple-IsScalar :
    (a b c d : ℕ) → is_quadruple a b c d ≡ true → IsScalar (quadruple a b c d).value
unfolding is_quadruple
quadruple-IsScalar a b c d h = ground arith

if-AllScalars :
    (t : Bool) (xs ys : List Rune)
    → (t ≡ true → AllScalars (values xs))
    → AllScalars (values ys)
    → AllScalars (values (if t then xs else ys))
if-AllScalars true xs ys f g = f refl
if-AllScalars false xs ys f g = g

decode-AllScalars : (s : Text) → AllScalars (values (decode s))
unfolding decode
decode-AllScalars [] = tt
decode-AllScalars (a ∷ []) = (single-IsScalar a, tt)
decode-AllScalars (a ∷ b ∷ []) =
    if-AllScalars (is_double a b) _ _ (λ h. (double-IsScalar a b h, tt))
      (single-IsScalar a, decode-AllScalars (b ∷ []))
decode-AllScalars (a ∷ b ∷ c ∷ []) =
    if-AllScalars (is_double a b) _ _ (λ h. (double-IsScalar a b h, decode-AllScalars (c ∷ [])))
      (if-AllScalars (is_triple a b c) _ _ (λ h. (triple-IsScalar a b c h, tt))
        (single-IsScalar a, decode-AllScalars (b ∷ c ∷ [])))
decode-AllScalars (a ∷ b ∷ c ∷ d ∷ s) =
    if-AllScalars (is_double a b) _ _ (λ h. (double-IsScalar a b h, decode-AllScalars (c ∷ d ∷ s)))
      (if-AllScalars (is_triple a b c) _ _
        (λ h. (triple-IsScalar a b c h, decode-AllScalars (d ∷ s)))
        (if-AllScalars (is_quadruple a b c d) _ _
          (λ h. (quadruple-IsScalar a b c d h, decode-AllScalars s))
          (single-IsScalar a, decode-AllScalars (b ∷ c ∷ d ∷ s))))

-- Cutting a string at a number of runes cuts its runes there.
pub runes-take : (n : ℕ) (s : Text) → runes (from_runes (take n (runes s))) ≡ take n (runes s)
runes-take n s =
    runes-from_runes (take n (runes s))
      (take-AllScalars n (runes s) (unfold runes in decode-AllScalars s))

pub runes-AllScalars : (s : Text) → AllScalars (runes s)
unfolding runes
runes-AllScalars s = decode-AllScalars s

pub append-AllScalars : (cs ds : List ℕ) → AllScalars cs → AllScalars ds → AllScalars (cs ++ ds)
append-AllScalars [] ds h k = k
append-AllScalars (c ∷ cs) ds h k = (h.0, append-AllScalars cs ds h.1 k)

pub from_runes-append : (xs ys : List ℕ) → from_runes (xs ++ ys) ≡ from_runes xs ++ from_runes ys
unfolding from_runes
from_runes-append [] ys = refl
from_runes-append (x ∷ xs) ys =
    let c = if between 0xD800 0xDFFF x || ltb 0x10FFFF x then 0xFFFD else x in
    rw (from_runes-append xs ys)
      (sym (append_assoc (utf8_encode c) (from_runes xs) (from_runes ys)))
