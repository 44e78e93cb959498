-- ===== src/Diagnosis/Paths.antt =====
-- diagnosis/scoring.go, safeJoinUnderRoot, with what it uses of path/filepath (on Unix): Clean, IsAbs,
-- Join and Rel. A cleaned path is whether it is rooted, and its names; the text "." has no names.
pub mod Confined
use mathlib.Core.List.{reverse}
use mathlib.Core.Bool.{xor}
use amp_sentinel.Prelude.{
  Bool, true, false, List, [], ◌∷◌, ◌++◌, Option, none, some, ◌==◌, if◌then◌else◌,
}
use amp_sentinel.Prelude.Text.{Text, utf8, text_eq, is_empty}

pub record FilePath : Type 0 where
  pub rooted : Bool
  pub names : List Text

unfoldable pub dot : Text
unfolding utf8
dot = utf8 "."

unfoldable pub dot_dot : Text
unfolding utf8
dot_dot = utf8 ".."

-- The texts between the slashes; `word` is the reversed text read since the last one.
unfoldable pub split_from : Text → Text → List Text
split_from word [] = reverse word ∷ []
split_from word (c ∷ s) =
    let here = reverse word ∷ split_from [] s in
    let on = split_from (c ∷ word) s in if c == b'/' then here else on

unfoldable pub split : Text → List Text
unfolding split_from
split = split_from []

unfoldable pub is_rooted : Text → Bool
is_rooted [] = false
is_rooted (c ∷ s) = c == b'/'

-- `..` after the reversed names: up, unless nothing or another `..` is there to go up from.
unfoldable pub go_up : Bool → List Text → List Text
go_up rooted [] = if rooted then [] else dot_dot ∷ []
go_up rooted (n ∷ ns) = if text_eq n dot_dot then dot_dot ∷ n ∷ ns else ns

-- One element of a path: an empty one and `.` change nothing.
unfoldable pub enter : Bool → List Text → Text → List Text
unfolding go_up
enter rooted up name =
    if is_empty name
    then up
    else if text_eq name dot
    then up
    else if text_eq name dot_dot
    then go_up rooted up
    else name ∷ up

unfoldable pub enter_all : Bool → List Text → List Text → List Text
unfolding enter
enter_all rooted up [] = up
enter_all rooted up (n ∷ ns) = enter_all rooted (enter rooted up n) ns

-- filepath.Clean
unfoldable pub clean : Text → FilePath
unfolding is_rooted split enter_all
clean p = record { rooted = is_rooted p; names = reverse (enter_all (is_rooted p) [] (split p)) }

-- filepath.Join(root, p) for a cleaned `p`: `Clean(root + "/" + p)`, or `p` if there is no root.
unfoldable pub join : Text → FilePath → FilePath
unfolding is_rooted split enter_all
join [] p = p
join (c ∷ root) p = record {
  rooted = is_rooted (c ∷ root);
  names = reverse (enter_all (is_rooted (c ∷ root)) [] (split (c ∷ root) ++ p.names));
}

-- What is left of two lists of names behind their common start.
unfoldable pub strip_common : List Text → List Text → List Text × List Text
strip_common [] ts = ([], ts)
strip_common bs [] = (bs, [])
strip_common (b ∷ bs) (t ∷ ts) =
    let rest = strip_common bs ts in if text_eq b t then rest else (b ∷ bs, t ∷ ts)

unfoldable pub all_up : List Text → List Text
all_up [] = []
all_up (n ∷ ns) = dot_dot ∷ all_up ns

unfoldable pub starts_up : List Text → Bool
starts_up [] = false
starts_up (n ∷ ns) = text_eq n dot_dot

-- filepath.Rel on cleaned paths: up from the base, and down to the target.
unfoldable pub rel : FilePath → FilePath → Option (List Text)
unfolding strip_common all_up starts_up
rel base target =
    let (bs, ts) = strip_common base.names target.names in
    if xor base.rooted target.rooted
    then none
    else if starts_up bs
    then none
    else some (all_up bs ++ ts)

-- A cleaned path is `..` or begins with `../`.
unfoldable pub escapes : List Text → Bool
unfolding starts_up
escapes = starts_up

unfoldable pub unless_escaping : FilePath → Option (List Text) → Option FilePath
unless_escaping full none = none
unless_escaping full (some r) = if escapes r then none else some full

unfoldable pub safe_join_under_root : Text → Text → Option FilePath
unfolding unless_escaping
safe_join_under_root root path =
    let p = clean path in
    let full = join root p in
    if p.rooted
    then none
    else if escapes p.names
    then none
    else unless_escaping full (rel (clean root) full)
