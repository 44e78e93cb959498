-- ===== src/Diagnosis/Repair/Closing.antt =====
-- diagnosis/structured.go, balanceBrackets: what it closes, measured by the grammar of brackets.
use mathlib.Core.Path.{subst}
use mathlib.Core.List.{append_assoc, append-nil}
use amp_sentinel.Prelude.{ℕ, ◌≡◌, ◌≢◌, refl, sym, ap, ◌∙◌, true, false, List, [], ◌∷◌, ◌++◌, arith}
use amp_sentinel.Prelude.Text.{Text}
use amp_sentinel.Diagnosis.Repair.{
  outside, quote_step, is_structural, Scan, pop_match, bracket_step, scan_step, scan, scan_start,
  balance_brackets,
}
use amp_sentinel.Diagnosis.Repair.Brackets.{scan-append}
use amp_sentinel.Diagnosis.Repair.Grammar.{
  Quoted, closing, escape, inner, Balanced, no_bracket, plain, in_quotes, object, array, Opened,
  none_open, open_object, open_array, closers,
}

-- The scan outside a string, and inside one.
abbrev at_stack : List ℕ → Scan
at_stack st = record { quote = outside; stack = st }

abbrev within : List ℕ → Scan
within st = record { quote = record { in_string = true; escaped = false }; stack = st }

scan_string : (st : List ℕ) (q : Text) → Quoted q → scan (within st) q ≡ at_stack st
unfolding scan scan_step quote_step is_structural bracket_step
scan_string st _ closing = refl
scan_string st _ (escape c s h) = scan_string st s h
scan_string st _ (inner c s no_quote no_escape h) =
    ground (arith, no_quote, no_escape, scan_string st s h)

scan_plain :
    (st : List ℕ) (c : ℕ)
    → c ≢ b'"'
    → c ≢ b'{'
    → c ≢ b'}'
    → c ≢ b'['
    → c ≢ b']'
    → scan_step (at_stack st) c ≡ at_stack st
unfolding scan_step quote_step is_structural bracket_step
scan_plain st c a b d e f = ground (arith, a, b, d, e, f)

-- Matched text leaves the stack as it was.
scan-Balanced : (st : List ℕ) (s : Text) → Balanced s → scan (at_stack st) s ≡ at_stack st
unfolding scan scan_step quote_step is_structural bracket_step pop_match
scan-Balanced st _ no_bracket = refl
scan-Balanced st _ (plain c s a b d e f h) =
    ap (λ t. scan t s) (scan_plain st c a b d e f) ∙ scan-Balanced st s h
scan-Balanced st _ (in_quotes q s hq h) =
    scan-append (within st) q s ∙ ap (λ t. scan t s) (scan_string st q hq) ∙ scan-Balanced st s h
scan-Balanced st _ (object o s ho h) =
    scan-append (at_stack (b'}' ∷ st)) o (b'}' ∷ s)
    ∙ ap (λ t. scan t (b'}' ∷ s)) (scan-Balanced (b'}' ∷ st) o ho)
    ∙ scan-Balanced st s h
scan-Balanced st _ (array o s ho h) =
    scan-append (at_stack (b']' ∷ st)) o (b']' ∷ s)
    ∙ ap (λ t. scan t (b']' ∷ s)) (scan-Balanced (b']' ∷ st) o ho)
    ∙ scan-Balanced st s h

scan-Opened : (os : List ℕ) (s : Text) → Opened os s → scan scan_start s ≡ at_stack (closers os)
unfolding scan scan_step quote_step is_structural bracket_step closers
scan-Opened _ _ (none_open s h) = scan-Balanced [] s h
scan-Opened _ _ (open_object os s o h ho) =
    scan-append scan_start s (b'{' ∷ o)
    ∙ ap (λ t. scan t (b'{' ∷ o)) (scan-Opened os s h)
    ∙ scan-Balanced (b'}' ∷ closers os) o ho
scan-Opened _ _ (open_array os s o h ho) =
    scan-append scan_start s (b'[' ∷ o)
    ∙ ap (λ t. scan t (b'[' ∷ o)) (scan-Opened os s h)
    ∙ scan-Balanced (b']' ∷ closers os) o ho

append-Balanced : (a b : Text) → Balanced a → Balanced b → Balanced (a ++ b)
append-Balanced _ b no_bracket hb = hb
append-Balanced _ b (plain c s p q r t u h) hb =
    plain c (s ++ b) p q r t u (append-Balanced s b h hb)
append-Balanced _ b (in_quotes q s hq h) hb =
    subst (λ t. Balanced (b'"' ∷ t)) (sym (append_assoc q s b))
      (in_quotes q (s ++ b) hq (append-Balanced s b h hb))
append-Balanced _ b (object o s ho h) hb =
    subst (λ t. Balanced (b'{' ∷ t)) (sym (append_assoc o (b'}' ∷ s) b))
      (object o (s ++ b) ho (append-Balanced s b h hb))
append-Balanced _ b (array o s ho h) hb =
    subst (λ t. Balanced (b'[' ∷ t)) (sym (append_assoc o (b']' ∷ s) b))
      (array o (s ++ b) ho (append-Balanced s b h hb))

-- The innermost open bracket, what stands behind it, its closing one and the rest.
regroup :
    (s : Text) (c : ℕ) (o u : Text) (k : ℕ) (ks : Text)
    → (s ++ (c ∷ (o ++ u) ++ k ∷ [])) ++ ks ≡ ((s ++ (c ∷ o)) ++ u) ++ k ∷ ks
regroup s c o u k ks =
    append_assoc s (c ∷ (o ++ u) ++ k ∷ []) ks
    ∙ ap (λ t. s ++ (c ∷ t)) (append_assoc (o ++ u) (k ∷ []) ks)
    ∙ sym (append_assoc s (c ∷ (o ++ u)) (k ∷ ks))
    ∙ ap (λ t. t ++ k ∷ ks) (sym (append_assoc s (c ∷ o) u))

close_opened :
    (os : List ℕ) (s u : Text) → Opened os s → Balanced u → Balanced ((s ++ u) ++ closers os)
unfolding closers
close_opened _ _ u (none_open s h) hu =
    subst Balanced (sym (append-nil (s ++ u))) (append-Balanced s u h hu)
close_opened _ _ u (open_object os s o h ho) hu =
    subst Balanced (regroup s b'{' o u b'}' (closers os)) (
      close_opened os s (b'{' ∷ (o ++ u) ++ b'}' ∷ []) h
        (object (o ++ u) [] (append-Balanced o u ho hu) no_bracket))
close_opened _ _ u (open_array os s o h ho) hu =
    subst Balanced (regroup s b'[' o u b']' (closers os)) (
      close_opened os s (b'[' ∷ (o ++ u) ++ b']' ∷ []) h
        (array (o ++ u) [] (append-Balanced o u ho hu) no_bracket))

append_closed : (os : List ℕ) (s : Text) → Opened os s → Balanced (s ++ closers os)
append_closed os s h =
    subst (λ t. Balanced (t ++ closers os)) (append-nil s) (close_opened os s [] h no_bracket)

balanced_again : (s : Text) → Balanced s → s ++ (scan scan_start s).stack ≡ s
balanced_again s h = rw (scan-Balanced [] s h) (append-nil s)

-- Let every bracket of a text that is outside a string be matched by one of its kind, but for some that are left
-- open, and let the text end outside a string. `balanceBrackets` appends `}` for each open `{`
-- and `]` for each open `[`, the innermost first, and nothing else; in the result every bracket is matched, and a
-- second call changes nothing.
pub balance_brackets_closes :
    (os : List ℕ) (s : Text)
    → Opened os s
    → (balance_brackets s ≡ s ++ closers os)
      × Balanced (balance_brackets s)
      × (balance_brackets (balance_brackets s) ≡ balance_brackets s)
unfolding balance_brackets
balance_brackets_closes os s h =
    let closed = append_closed os s h in
    rw (scan-Opened os s h) (refl, closed, balanced_again (s ++ closers os) closed)
