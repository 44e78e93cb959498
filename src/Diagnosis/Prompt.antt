-- ===== src/Diagnosis/Prompt.antt =====
-- diagnosis/prompt.go, truncatePayload, and diagnosis/fixer.go, buildFixerPrompt: long texts are cut between characters.
use amp_sentinel.Prelude.{
  ℕ, zero, suc, ◌*◌, Bool, not, ◌&&◌, [], ◌∷◌, ◌++◌, ltb, leb, ◌==◌, if◌then◌else◌, all, length,
  take,
}
use amp_sentinel.Prelude.Int.{pos}
use amp_sentinel.Prelude.Text.{Text, utf8}
use amp_sentinel.Prelude.Runes.{Rune, decode}
use amp_sentinel.Intake.Handler.{decimal}

-- A rune that does not stand for an invalid byte.
unfoldable pub is_whole : Rune → Bool
is_whole r = not (r.value == 0xFFFD && length r.bytes == 1)

-- utf8.ValidString
unfoldable pub valid_string : Text → Bool
valid_string s = all is_whole (decode s)

unfoldable pub drop_last : Text → Text
drop_last [] = []
drop_last (c ∷ []) = []
drop_last (c ∷ d ∷ s) = c ∷ drop_last (d ∷ s)

-- The loop `for i := 0; i < 3; i++`, with so many rounds left.
unfoldable pub walk_back : ℕ → Text → Text
walk_back zero s = s
walk_back (suc n) s = let rest = walk_back n (drop_last s) in if valid_string s then s else rest

unfoldable pub truncate_payload : Text → ℕ → Text
truncate_payload payload max_size =
    if leb (length payload) max_size
    then payload
    else walk_back 3 (take max_size payload)
      ++ (utf8 "\n...(payload truncated, original size: "
          ++ (decimal (pos (length payload)) ++ utf8 " bytes)"))

-- What buildFixerPrompt keeps of the malformed answer.
unfoldable pub cut_malformed : Text → ℕ → Text
cut_malformed malformed max_tokens =
    if ltb (max_tokens * 4) (length malformed)
    then walk_back 3 (take (max_tokens * 4) malformed)
    else malformed
