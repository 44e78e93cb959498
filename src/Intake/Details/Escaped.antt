-- ===== src/Intake/Details/Escaped.antt =====
-- intake/types.go, EscapeLarkMD: which characters have a backslash before them afterwards.
use amp_sentinel.Prelude.{
  ℕ, ◌≡◌, Bool, true, false, not, ◌&&◌, ◌||◌, [], ◌∷◌, all, any, ◌==◌, if◌then◌else◌,
}
use amp_sentinel.Prelude.Text.{Text}

-- The characters that EscapeLarkMD is for: * _ [ ] ( ) ~ and the backquote.
abbrev pub formats : ℕ → Bool
formats c = any (λ m. c == m) (b'*' ∷ b'_' ∷ b'[' ∷ b']' ∷ b'(' ∷ b')' ∷ b'~' ∷ b'`' ∷ [])

-- Has the text, behind the character `before`, one of them without a backslash directly before it?
unfoldable pub has_bare : ℕ → Text → Bool
has_bare before [] = false
has_bare before (c ∷ s) = formats c && not (before == b'\\') || has_bare c s

-- The text without its backslashes.
unfoldable pub without_backslashes : Text → Text
without_backslashes [] = []
without_backslashes (c ∷ s) =
    let rest = without_backslashes s in if c == b'\\' then rest else c ∷ rest

-- No character of the text is a backslash.
abbrev pub IsPlain : Text → Type 0
IsPlain s = all (λ c. not (c == b'\\')) s ≡ true
