-- ===== src/Diagnosis/Repair/Brackets.antt =====
-- diagnosis/structured.go, balanceBrackets and fixUnterminatedString: what is closed afterwards.
use amp_sentinel.Prelude.{
  ℕ, ◌≤◌, ◌≡◌, refl, sym, ap, ◌∙◌, ◌⊎◌, inl, inr, Bool, true, false, List, [], ◌∷◌, ◌++◌, arith,
  if◌then◌else◌, Bool-cases, lt→ltb,
}
use amp_sentinel.Prelude.Text.{Text, is_empty}
use amp_sentinel.Prelude.Runes.{Rune, decode, bytes_of, trim_space}
use amp_sentinel.Prelude.Runes.Laws.{
  AllHigh, IsChunk, ascii, wide, AllChunks, nil, cons, decode-AllChunks, bytes_of-decode,
}
use amp_sentinel.Diagnosis.Repair.{
  Quote, outside, quote_step, Scan, bracket_step, scan_step, scan, scan_start, balance_brackets,
  quote_runes, close_string, fix_unterminated_string,
}

pub scan-append : (st : Scan) (s t : Text) → scan st (s ++ t) ≡ scan (scan st s) t
unfolding scan
scan-append st [] t = refl
scan-append st (c ∷ s) t = scan-append (scan_step st c) s t

-- A stack of closing brackets.
abbrev AllClosers : List ℕ → Type 0
AllClosers [] = Unit {0}
AllClosers (c ∷ cs) = ((c ≡ b'}') ⊎ (c ≡ b']')) × AllClosers cs

bracket_step-AllClosers : (cs : List ℕ) (c : ℕ) → AllClosers cs → AllClosers (bracket_step cs c)
unfolding bracket_step
bracket_step-AllClosers [] c h = ground arith
bracket_step-AllClosers (x ∷ cs) c h = ground arith

scan-AllClosers : (st : Scan) (s : Text) → AllClosers st.stack → AllClosers (scan st s).stack
unfolding scan
scan-AllClosers st [] h = h
scan-AllClosers st (c ∷ s) h =
    scan-AllClosers (scan_step st c) s (ground (arith, bracket_step-AllClosers st.stack c))

scan_step_closer :
    (c : ℕ) (cs : List ℕ)
    → (c ≡ b'}') ⊎ (c ≡ b']')
    → scan_step (record { quote = outside; stack = c ∷ cs }) c
      ≡ record { quote = outside; stack = cs }
unfolding scan_step
scan_step_closer c cs h = ground arith

-- Closing brackets, read outside a string, undo the stack that they were taken from.
scan_closers :
    (cs : List ℕ) → AllClosers cs → scan (record { quote = outside; stack = cs }) cs ≡ scan_start
unfolding scan
scan_closers [] h = refl
scan_closers (c ∷ cs) h = rw (scan_step_closer c cs h.0) (scan_closers cs h.1)

scan_closed :
    (s : Text)
    → (scan scan_start s).quote ≡ outside
    → scan scan_start (s ++ (scan scan_start s).stack) ≡ scan_start
scan_closed s h =
    let st = scan scan_start s in
    scan-append scan_start s st.stack
    ∙ (λ i. scan (record { quote = h i; stack = st.stack }) st.stack)
    ∙ scan_closers st.stack (scan-AllClosers scan_start s tt)

-- The quotes of the bytes, without the brackets.
quote_bytes : Quote → Text → Quote
quote_bytes q [] = q
quote_bytes q (c ∷ s) = quote_bytes (quote_step q c) s

scan-quote : (st : Scan) (s : Text) → (scan st s).quote ≡ quote_bytes st.quote s
unfolding scan quote_bytes
scan-quote st [] = refl
scan-quote st (c ∷ s) = scan-quote (scan_step st c) s

quote_bytes-append :
    (q : Quote) (s t : Text) → quote_bytes q (s ++ t) ≡ quote_bytes (quote_bytes q s) t
unfolding quote_bytes
quote_bytes-append q [] t = refl
quote_bytes-append q (c ∷ s) t = quote_bytes-append (quote_step q c) s t

-- Bytes past ASCII are no quotes and no escapes.
quote_step_high : (q : Quote) (c : ℕ) → 0x80 ≤ c → quote_step q c ≡ record q { escaped = false }
unfolding quote_step
quote_step_high q c h = ground arith

quote_bytes_high : (q : Quote) (s : Text) → q.escaped ≡ false → AllHigh s → quote_bytes q s ≡ q
unfolding quote_bytes
quote_bytes_high q [] e h = refl
quote_bytes_high q (c ∷ s) e h = ground (arith, quote_step_high q c h.0, quote_bytes_high q s e h.1)

quote_chunk : (q : Quote) {r : Rune} → IsChunk r → quote_bytes q r.bytes ≡ quote_step q r.value
unfolding quote_bytes
quote_chunk q (ascii a e h) = rw (e, lt→ltb a 0x80 h)
quote_chunk q {r = r} (wide a s e h hs v) =
    rw (e, quote_step_high q a h, quote_step_high q r.value v)
      (quote_bytes_high (record q { escaped = false }) s refl hs)

quote_runes-bytes :
    (q : Quote) {rs : List Rune} → AllChunks rs → quote_runes q rs ≡ quote_bytes q (bytes_of rs)
unfolding quote_runes quote_bytes
quote_runes-bytes q nil = refl
quote_runes-bytes q (cons {r} {rs} h p) =
    quote_runes-bytes (quote_step q r.value) p
    ∙ sym (
        quote_bytes-append q r.bytes (bytes_of rs)
        ∙ ap (λ q'. quote_bytes q' (bytes_of rs)) (quote_chunk q h))

-- The loop over runes and the one over bytes agree on where strings and escapes are.
quote_runes-decode : (s : Text) → quote_runes outside (decode s) ≡ (scan scan_start s).quote
quote_runes-decode s =
    quote_runes-bytes outside (decode-AllChunks s)
    ∙ ap (quote_bytes outside) (bytes_of-decode s)
    ∙ sym (scan-quote scan_start s)

-- An escape is pending inside a string only.
IsQuote : Quote → Type 0
IsQuote q = q.escaped ≡ true → q.in_string ≡ true

scan-IsQuote : (st : Scan) (s : Text) → IsQuote st.quote → IsQuote (scan st s).quote
unfolding scan IsQuote
scan-IsQuote st [] h = h
scan-IsQuote st (c ∷ s) h = scan-IsQuote (scan_step st c) s (ground arith)

scan_quoted :
    (t : Text)
    → (scan scan_start (t ++ b'"' ∷ [])).quote ≡ quote_step (scan scan_start t).quote b'"'
unfolding scan
scan_quoted t = ap (λ (x : Scan). x.quote) (scan-append scan_start t (b'"' ∷ []))

close_quote :
    (q : Quote)
    → IsQuote q
    → q.in_string ≡ true
    → quote_step q b'"' ≡ record { in_string = q.escaped; escaped = false }
unfolding quote_step IsQuote
close_quote q v i = ground arith

no_quote :
    (q : Quote)
    → IsQuote q
    → q.in_string ≡ false
    → q ≡ record { in_string = q.escaped; escaped = false }
unfolding IsQuote
no_quote q v i = ground arith

-- The closing quote ends the string, unless an escape is pending: then the string stays open.
scan-close_string :
    (t : Text)
    → (scan scan_start (close_string t)).quote
      ≡ record { in_string = (quote_runes outside (decode t)).escaped; escaped = false }
unfolding close_string
scan-close_string t =
    let v = scan-IsQuote scan_start t (unfold IsQuote in λ e. cc) in
    rw (quote_runes-decode t) (elim (Bool-cases (scan scan_start t).quote.in_string) [
      | inl i ↦ rw i (scan_quoted t ∙ close_quote (scan scan_start t).quote v i)
      | inr i ↦ rw i (no_quote (scan scan_start t).quote v i)
    ])

quote_step_closer :
    (q : Quote) (c : ℕ) → q.escaped ≡ false → (c ≡ b'}') ⊎ (c ≡ b']') → quote_step q c ≡ q
unfolding quote_step
quote_step_closer q c e h = ground arith

quote_bytes_closers :
    (q : Quote) (cs : List ℕ) → q.escaped ≡ false → AllClosers cs → quote_bytes q cs ≡ q
unfolding quote_bytes
quote_bytes_closers q [] e h = refl
quote_bytes_closers q (c ∷ cs) e h =
    rw (quote_step_closer q c e h.0) (quote_bytes_closers q cs e h.1)

-- Balancing changes no quotes.
balance_brackets-quote :
    (s : Text)
    → (scan scan_start s).quote.escaped ≡ false
    → (scan scan_start (balance_brackets s)).quote ≡ (scan scan_start s).quote
unfolding balance_brackets
balance_brackets-quote s e =
    let st = scan scan_start s in
    ap (λ (x : Scan). x.quote) (scan-append scan_start s st.stack)
    ∙ scan-quote st st.stack
    ∙ quote_bytes_closers st.quote st.stack e (scan-AllClosers scan_start s tt)

-- Where a text ends outside a string, reading what `balanceBrackets` makes of it ends with an empty stack.
balance_brackets-scan :
    (s : Text)
    → (scan scan_start s).quote ≡ outside
    → scan scan_start (balance_brackets s) ≡ scan_start
unfolding balance_brackets
balance_brackets-scan s h = scan_closed s h

-- `pending` is the escape left at the end of the trimmed text, `r` what is returned.
abbrev pub ClosesUnless : Bool → Text → Type 0
ClosesUnless pending r =
    (pending ≡ false → scan scan_start r ≡ scan_start)
    × (pending ≡ true → (scan scan_start r).quote.in_string ≡ true)

balance_closed :
    (t : Text)
    → ClosesUnless (quote_runes outside (decode t)).escaped (balance_brackets (close_string t))
balance_closed t =
    let quote = scan-close_string t in
    let kept = balance_brackets-quote (close_string t) (ap (λ (q : Quote). q.escaped) quote) in
    (
      λ h.
          balance_brackets-scan (close_string t)
            (quote ∙ (λ i. record { in_string = h i; escaped = false })),
      λ h. ap (λ (q : Quote). q.in_string) (kept ∙ quote) ∙ h,
    )

closed_or_empty :
    (t : Text)
    → ClosesUnless
        (quote_runes outside (decode t)).escaped
        (if is_empty t then t else balance_brackets (close_string t))
closed_or_empty [] = unfold scan quote_runes decode in (λ h. refl, λ h. cc)
closed_or_empty (c ∷ t) = balance_closed (c ∷ t)

-- What `fixUnterminatedString` returns ends outside a string, with every bracket closed, if the
-- trimmed text does not end in a pending escape.
pub fix_unterminated_string_closes :
    (s : Text)
    → (quote_runes outside (decode (trim_space s))).escaped ≡ false
    → scan scan_start (fix_unterminated_string s) ≡ scan_start
unfolding fix_unterminated_string
fix_unterminated_string_closes s h = (closed_or_empty (trim_space s)).0 h

-- If the trimmed text ends in a pending escape, what `fixUnterminatedString` returns still ends inside a string.
pub fix_unterminated_string_open :
    (s : Text)
    → (quote_runes outside (decode (trim_space s))).escaped ≡ true
    → (scan scan_start (fix_unterminated_string s)).quote.in_string ≡ true
unfolding fix_unterminated_string
fix_unterminated_string_open s h = (closed_or_empty (trim_space s)).1 h
