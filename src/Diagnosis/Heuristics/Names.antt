-- ===== src/Diagnosis/Heuristics/Names.antt =====
-- diagnosis/engine.go, sanitizeFilename: the name of a session log is one element of a path.
use mathlib.Core.List.{reverse, reverse-cons, reverse-reverse, append-nil, append_assoc}
use amp_sentinel.Prelude.{
  ℕ, zero, suc, ◌+◌, ◌/◌, ◌%◌, ◌<◌, ◌≡◌, refl, sym, ap, ◌∙◌, Bool, true, false, ◌&&◌, List, [], ◌∷◌,
  ◌++◌, map, all, ◌==◌, length, length-append, arith, if◌then◌else◌,
}
use amp_sentinel.Prelude.Int.{ℤ, pos, negsuc}
use amp_sentinel.Prelude.Text.{Text, utf8, text_eq}
use amp_sentinel.Prelude.Runes.{runes}
use amp_sentinel.Intake.Handler.{decimal, decimal_loop}
use amp_sentinel.Diagnosis.Paths.{FilePath, dot, dot_dot, split, split_from, enter, enter_all}
use amp_sentinel.Project.Sources.{join_under}
use amp_sentinel.Diagnosis.Heuristics.{is_kept, sanitize_filename, session_name}

all-append : (p : ℕ → Bool) (xs ys : Text) → all p (xs ++ ys) ≡ all p xs && all p ys
all-append p [] ys = refl
all-append p (x ∷ xs) ys = ground (arith, all-append p xs ys)

kept_or_bar : (r : ℕ) → is_kept (if is_kept r then r else b'_') ≡ true
unfolding is_kept
kept_or_bar r = ground arith

kept_runes : (rs : List ℕ) → all is_kept (map (λ r. if is_kept r then r else b'_') rs) ≡ true
kept_runes [] = refl
kept_runes (r ∷ rs) = ground (arith, kept_or_bar r, kept_runes rs)

sanitize_filename-kept : (s : Text) → all is_kept (sanitize_filename s) ≡ true
unfolding sanitize_filename
sanitize_filename-kept s = kept_runes (runes s)

digit_kept : (n : ℕ) → is_kept (b'0' + n % 10) ≡ true
unfolding is_kept
digit_kept n = ground arith

decimal_loop-kept : (k n : ℕ) → all is_kept (decimal_loop k n) ≡ true
unfolding decimal_loop
decimal_loop-kept zero n = refl
decimal_loop-kept (suc k) n = ground (
  arith,
  digit_kept n,
  decimal_loop-kept k (n / 10),
  all-append is_kept (decimal_loop k (n / 10)) ((b'0' + n % 10) ∷ []),
)

end_kept : (all is_kept (utf8 ".ndjson") ≡ true) × (is_kept b'_' ≡ true)
unfolding utf8 is_kept
end_kept = (refl, refl)

minus_kept : is_kept b'-' ≡ true
unfolding is_kept
minus_kept = refl

decimal_kept : (n : ℤ) → all is_kept (decimal n) ≡ true
unfolding decimal
decimal_kept (pos n) = decimal_loop-kept (n + 1) n
decimal_kept (negsuc n) = ground (arith, minus_kept, decimal_loop-kept (n + 2) (suc n))

session_name-kept : (id key : Text) (n : ℤ) → all is_kept (session_name id key n) ≡ true
unfolding session_name
session_name-kept id key n =
    let digits = decimal n in
    let back = b'_' ∷ digits ++ utf8 ".ndjson" in
    ground (
      arith,
      end_kept,
      sanitize_filename-kept id,
      sanitize_filename-kept key,
      decimal_kept n,
      all-append is_kept digits (utf8 ".ndjson"),
      all-append is_kept (sanitize_filename key) back,
      all-append is_kept (sanitize_filename id) (b'_' ∷ sanitize_filename key ++ back),
    )

kept_no_slash : (c : ℕ) → is_kept c ≡ true → (c == b'/') ≡ false
unfolding is_kept
kept_no_slash c h = ground (arith, h)

kept_parts :
    (c : ℕ) (s : Text) → all is_kept (c ∷ s) ≡ true → (is_kept c ≡ true) × (all is_kept s ≡ true)
kept_parts c s h = ground (arith, h)

split_kept : (word s : Text) → all is_kept s ≡ true → split_from word s ≡ (reverse word ++ s) ∷ []
unfolding split_from
split_kept word [] h = ap (λ w. w ∷ []) (sym (append-nil (reverse word)))
split_kept word (c ∷ s) h =
    let both = kept_parts c s h in
    rw (kept_no_slash c both.0) (
      split_kept (c ∷ word) s both.1
      ∙ ap (λ w. w ∷ [])
          (ap (λ w. w ++ s) (reverse-cons c word) ∙ append_assoc (reverse word) (c ∷ []) s))

-- A text of more than two bytes is no empty element, no `.` and no `..`.
long_entered :
    (rooted : Bool) (up : List Text) (name : Text)
    → 2 < length name
    → enter rooted up name ≡ name ∷ up
unfolding enter dot dot_dot utf8 text_eq
long_entered rooted up [] h = absurd (omega arith)
long_entered rooted up (a ∷ []) h = absurd (omega arith)
long_entered rooted up (a ∷ b ∷ []) h = absurd (omega arith)
long_entered rooted up (a ∷ b ∷ c ∷ s) h = ground arith

length-session_name : (id key : Text) (n : ℤ) → 2 < length (session_name id key n)
unfolding session_name utf8
length-session_name id key n =
    let back = decimal n ++ utf8 ".ndjson" in
    omega (
      arith,
      length-append (decimal n) (utf8 ".ndjson"),
      length-append (sanitize_filename key) (b'_' ∷ back),
      length-append (sanitize_filename id) (b'_' ∷ sanitize_filename key ++ (b'_' ∷ back)),
    )

-- Whatever the event's id and the project's key are, slashes and `..` included, joining the name of a session log to a
-- directory gives a file of that very directory.
pub join_under-session_name :
    (id key : Text) (n : ℤ) (dir : FilePath)
    → join_under dir (session_name id key n)
      ≡ record dir { names = dir.names ++ session_name id key n ∷ [] }
unfolding join_under split enter_all
join_under-session_name id key n dir =
    let name = session_name id key n in
    ap (λ ns. record dir { names = reverse ns })
      (ap (enter_all dir.rooted (reverse dir.names))
          (split_kept [] name (session_name-kept id key n))
        ∙ long_entered dir.rooted (reverse dir.names) name (length-session_name id key n))
    ∙ ap (λ ns. record dir { names = ns })
        (reverse-cons name (reverse dir.names)
          ∙ ap (λ ns. ns ++ name ∷ []) (reverse-reverse dir.names))
