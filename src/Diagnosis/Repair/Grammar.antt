-- ===== src/Diagnosis/Repair/Grammar.antt =====
-- diagnosis/structured.go works on text whose brackets outside strings matter: what is well bracketed, as a grammar
-- that knows nothing of how the code reads.
use amp_sentinel.Prelude.{ℕ, ◌≢◌, ◌==◌, if◌then◌else◌, List, [], ◌∷◌, ◌++◌}
use amp_sentinel.Prelude.Text.{Text}

-- The rest of a string behind its opening quote, with the closing one.
pub data Quoted : Text → Type 0 where
  closing : Quoted (b'"' ∷ [])
  escape : (c : ℕ) (s : Text) → Quoted s → Quoted (b'\\' ∷ c ∷ s)
  inner : (c : ℕ) (s : Text) → c ≢ b'"' → c ≢ b'\\' → Quoted s → Quoted (c ∷ s)

-- Text in which every brace outside a string is matched.
pub data Braced : Text → Type 0 where
  no_more : Braced []
  other : (c : ℕ) (s : Text) → c ≢ b'"' → c ≢ b'{' → c ≢ b'}' → Braced s → Braced (c ∷ s)
  quoted : (q s : Text) → Quoted q → Braced s → Braced (b'"' ∷ q ++ s)
  braces : (o s : Text) → Braced o → Braced s → Braced (b'{' ∷ o ++ b'}' ∷ s)

-- Text in which every bracket of both kinds outside a string is matched by one of its kind.
pub data Balanced : Text → Type 0 where
  no_bracket : Balanced []
  plain :
      (c : ℕ) (s : Text)
      → c ≢ b'"'
      → c ≢ b'{'
      → c ≢ b'}'
      → c ≢ b'['
      → c ≢ b']'
      → Balanced s
      → Balanced (c ∷ s)
  in_quotes : (q s : Text) → Quoted q → Balanced s → Balanced (b'"' ∷ q ++ s)
  object : (o s : Text) → Balanced o → Balanced s → Balanced (b'{' ∷ o ++ b'}' ∷ s)
  array : (o s : Text) → Balanced o → Balanced s → Balanced (b'[' ∷ o ++ b']' ∷ s)

-- Matched text in which the brackets of the list, the innermost first, are left open.
pub data Opened : List ℕ → Text → Type 0 where
  none_open : (s : Text) → Balanced s → Opened [] s
  open_object :
      (os : List ℕ) (s o : Text) → Opened os s → Balanced o → Opened (b'{' ∷ os) (s ++ (b'{' ∷ o))
  open_array :
      (os : List ℕ) (s o : Text) → Opened os s → Balanced o → Opened (b'[' ∷ os) (s ++ (b'[' ∷ o))

-- What closes the brackets.
unfoldable pub closers : List ℕ → Text
closers [] = []
closers (c ∷ os) = (if c == b'{' then b'}' else b']') ∷ closers os
