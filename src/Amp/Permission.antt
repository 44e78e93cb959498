-- ===== src/Amp/Permission.antt =====
-- amp/permission.go: the permission rules of a diagnosis, in their order.
use amp_sentinel.Prelude.{List, [], ◌∷◌}
use amp_sentinel.Prelude.Text.{Text, utf8}

unfoldable pub read_only_permissions : List Text
unfolding utf8
read_only_permissions =
    utf8 "allow Read"
    ∷ utf8 "allow Grep"
    ∷ utf8 "allow glob"
    ∷ utf8 "allow finder"
    ∷ utf8 "allow web_search"
    ∷ utf8 "allow read_web_page"
    ∷ utf8 "allow librarian"
    ∷ utf8 "allow oracle"
    ∷ utf8 "reject edit_file"
    ∷ utf8 "reject create_file"
    ∷ utf8 "reject undo_edit"
    ∷ utf8 "allow Bash --cmd \"cat *\""
    ∷ utf8 "allow Bash --cmd \"head *\""
    ∷ utf8 "allow Bash --cmd \"tail *\""
    ∷ utf8 "allow Bash --cmd \"grep *\""
    ∷ utf8 "allow Bash --cmd \"wc *\""
    ∷ utf8 "allow Bash --cmd \"ls *\""
    ∷ utf8 "allow Bash --cmd \"tree *\""
    ∷ utf8 "allow Bash --cmd \"file *\""
    ∷ utf8 "allow Bash --cmd \"git log *\""
    ∷ utf8 "allow Bash --cmd \"git show *\""
    ∷ utf8 "allow Bash --cmd \"git diff *\""
    ∷ utf8 "allow Bash --cmd \"git blame *\""
    ∷ utf8 "allow Bash --cmd \"git branch *\""
    ∷ utf8 "allow Bash --cmd \"git tag *\""
    ∷ utf8 "allow Bash --cmd \"git status *\""
    ∷ utf8 "allow Bash --cmd \"go doc *\""
    ∷ utf8 "allow Bash --cmd \"java -version*\""
    ∷ utf8 "allow Bash --cmd \"python --version*\""
    ∷ utf8 "allow Bash --cmd \"node --version*\""
    ∷ utf8 "reject Bash --cmd \"git commit*\""
    ∷ utf8 "reject Bash --cmd \"git push*\""
    ∷ utf8 "reject Bash --cmd \"git add*\""
    ∷ utf8 "reject Bash --cmd \"git checkout*\""
    ∷ utf8 "reject Bash --cmd \"git reset*\""
    ∷ utf8 "reject Bash --cmd \"git merge*\""
    ∷ utf8 "reject Bash --cmd \"git rebase*\""
    ∷ utf8 "reject Bash --cmd \"git stash*\""
    ∷ utf8 "reject Bash --cmd \"rm *\""
    ∷ utf8 "reject Bash --cmd \"mv *\""
    ∷ utf8 "reject Bash --cmd \"cp *\""
    ∷ utf8 "reject Bash --cmd \"chmod *\""
    ∷ utf8 "reject Bash --cmd \"chown *\""
    ∷ utf8 "reject Bash --cmd \"sed *\""
    ∷ utf8 "reject Bash --cmd \"awk *\""
    ∷ utf8 "reject Bash --cmd \"dd *\""
    ∷ utf8 "reject Bash --cmd \"tee *\""
    ∷ utf8 "reject Bash --cmd \"truncate *\""
    ∷ utf8 "reject Bash --cmd \"curl -X PUT*\""
    ∷ utf8 "reject Bash --cmd \"curl -X POST*\""
    ∷ utf8 "reject Bash --cmd \"curl -X DELETE*\""
    ∷ utf8 "reject Bash --cmd \"curl -X PATCH*\""
    ∷ utf8 "reject Bash --cmd \"wget *\""
    ∷ utf8 "reject Task"
    ∷ utf8 "reject handoff"
    ∷ utf8 "reject Bash"
    ∷ []
