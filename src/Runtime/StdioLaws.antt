-- ===== src/Runtime/StdioLaws.antt =====
-- The bytes of a container on their way to the log and to the writers.
use kogia.Base.{
  append_assoc, ℕ, ◌≡◌, refl, sym, ap, ◌∙◌, inl, inr, Bool, true, false, List, [], ◌∷◌, ◌++◌, Str,
  ◌==◌, Bool-cases, All, codes, ◌⊎◌, ◌≢◌, arith,
}
use kogia.Base.Split.{Lacks}
use kogia.Runtime.Stdio.{
  ContainerIo, Write, wrapped, fan_out_or_buffer, add_attach_writer, add_byte, take_lines,
  flush_line, log_chunks, fan_out_all,
}

abbrev pub concat : List Str → Str
concat [] = []
concat (s ∷ ss) = s ++ concat ss

append_nil : {A : Type 0} (xs : List A) → xs ++ [] ≡ xs
append_nil [] = refl
append_nil (x ∷ xs) = ap (λ t. x ∷ t) (append_nil xs)

take_none : take_lines [] ≡ ([], [])
unfolding take_lines
take_none = refl

take_more : (c : ℕ) (s : Str) → take_lines (c ∷ s) ≡ add_byte c (take_lines s)
unfolding take_lines
take_more c s = refl

add_byte-append :
    (c : ℕ) (lines : List Str) (left b : Str)
    → add_byte c (lines ++ (take_lines (left ++ b)).0, (take_lines (left ++ b)).1) ≡ (
      (add_byte c (lines, left)).0 ++ (take_lines ((add_byte c (lines, left)).1 ++ b)).0,
      (take_lines ((add_byte c (lines, left)).1 ++ b)).1,
    )
unfolding add_byte
add_byte-append c [] left b = elim (Bool-cases (c == b'\n')) [
  | inl newline ↦ rw (newline) (newline_first c (take_lines (left ++ b)) newline)
  | inr other ↦ rw other (sym (take_more c (left ++ b)))
]
  where
    newline_first :
        (c : ℕ) (p : List Str × Str) → (c == b'\n') ≡ true → add_byte c p ≡ ((c ∷ []) ∷ p.0, p.1)
    newline_first c ([], left) h = rw h refl
    newline_first c (line ∷ lines, left) h = rw h refl
add_byte-append c (line ∷ lines) left b = elim (Bool-cases (c == b'\n')) [
  | inl newline ↦ rw newline refl
  | inr other ↦ rw other refl
]

-- Taking the lines of a text in two parts, the second with what the first has left.
take_lines-append :
    (a b : Str)
    → take_lines (a ++ b) ≡ (
      (take_lines a).0 ++ (take_lines ((take_lines a).1 ++ b)).0,
      (take_lines ((take_lines a).1 ++ b)).1,
    )
take_lines-append [] b = rw (take_none) refl
take_lines-append (c ∷ a) b =
    rw (take_more c (a ++ b), take_more c a, take_lines-append a b)
      (add_byte-append c (take_lines a).0 (take_lines a).1 b)

log_none : (line_buf : Str) → log_chunks [] line_buf ≡ flush_line line_buf
unfolding log_chunks
log_none line_buf = refl

log_more :
    (chunk : Str) (chunks : List Str) (line_buf : Str)
    → log_chunks (chunk ∷ chunks) line_buf
      ≡ (take_lines (line_buf ++ chunk)).0 ++ log_chunks chunks (take_lines (line_buf ++ chunk)).1
unfolding log_chunks
log_more chunk chunks line_buf = refl

left_add_byte :
    (c : ℕ) (p : List Str × Str)
    → take_lines p.1 ≡ ([], p.1)
    → take_lines (add_byte c p).1 ≡ ([], (add_byte c p).1)
unfolding add_byte
left_add_byte c ([], left) h = elim (Bool-cases (c == b'\n')) [
  | inl newline ↦ rw newline h
  | inr other ↦ rw other (take_more c left ∙ ap (add_byte c) h ∙ rw other refl)
]
left_add_byte c (line ∷ lines, left) h = elim (Bool-cases (c == b'\n')) [
  | inl newline ↦ rw newline h
  | inr other ↦ rw other h
]

-- What is left is a part of a line.
left_partial : (a : Str) → take_lines (take_lines a).1 ≡ ([], (take_lines a).1)
left_partial [] = rw (take_none) take_none
left_partial (c ∷ a) = rw (take_more c a) (left_add_byte c (take_lines a) (left_partial a))

log_chunks_from :
    (chunks : List Str) (line_buf : Str)
    → take_lines line_buf ≡ ([], line_buf)
    → log_chunks chunks line_buf
      ≡ (take_lines (line_buf ++ concat chunks)).0
        ++ flush_line (take_lines (line_buf ++ concat chunks)).1
log_chunks_from [] line_buf partial = rw (append_nil line_buf, partial) (log_none line_buf)
log_chunks_from (chunk ∷ chunks) line_buf partial =
    let taken = take_lines (line_buf ++ chunk) in
    let rest = log_chunks_from chunks taken.1 (left_partial (line_buf ++ chunk)) in
    rw
      (
        log_more chunk chunks line_buf,
        rest,
        ← append_assoc line_buf chunk (concat chunks),
        take_lines-append (line_buf ++ chunk) (concat chunks),
      )
      (sym (
        append_assoc taken.0 (take_lines (taken.1 ++ concat chunks)).0
          (flush_line (take_lines (taken.1 ++ concat chunks)).1)))

log_chunks-take_lines :
    (chunks : List Str)
    → log_chunks chunks []
      ≡ (take_lines (concat chunks)).0 ++ flush_line (take_lines (concat chunks)).1
log_chunks-take_lines chunks = log_chunks_from chunks [] take_none

-- A line with its newline, which is the only one in it.
abbrev pub IsLine : Str → Type 0
IsLine line = (body : Str) × Lacks b'\n' body × (line ≡ body ++ codes "\n")

-- A text is these lines and what is after them, which has no newline.
pub record Cut (text : Str) (lines : List Str) (left : Str) : Type 0 where
  pub whole : text ≡ concat lines ++ left
  pub each : All IsLine lines
  pub partial : Lacks b'\n' left

add_byte-Cut :
    (c : ℕ) (text : Str) (p : List Str × Str)
    → Cut text p.0 p.1
    → Cut (c ∷ text) (add_byte c p).0 (add_byte c p).1
unfolding add_byte
add_byte-Cut c text ([], left) cut = elim (Bool-cases (c == b'\n')) [
  | inl newline ↦ rw newline (record {
    whole = ap (λ (t : Str). c ∷ t) cut.whole;
    each = (([], tt, ground (arith, newline)), tt);
    partial = cut.partial;
  })
  | inr other ↦ rw other (record {
    whole = ap (λ (t : Str). c ∷ t) cut.whole;
    each = tt;
    partial = (other, cut.partial);
  })
]
add_byte-Cut c text (line ∷ lines, left) cut = elim (Bool-cases (c == b'\n')) [
  | inl newline ↦ rw newline (record {
    whole = ap (λ (t : Str). c ∷ t) cut.whole;
    each = (([], tt, ground (arith, newline)), cut.each);
    partial = cut.partial;
  })
  | inr other ↦
      let (body, lacks, at) = cut.each.0 in
      rw other (record {
        whole = ap (λ (t : Str). c ∷ t) cut.whole;
        each = ((c ∷ body, (other, lacks), ap (λ (t : Str). c ∷ t) at), cut.each.1);
        partial = cut.partial;
      })
]

take_lines-Cut : (text : Str) → Cut text (take_lines text).0 (take_lines text).1
take_lines-Cut [] = rw take_none (record { whole = refl; each = tt; partial = tt })
take_lines-Cut (c ∷ text) =
    rw (take_more c text) (add_byte-Cut c text (take_lines text) (take_lines-Cut text))

-- However the output of a terminal is cut into chunks, it is the lines that the log gets, each with
-- the one newline at its end, and, where the output does not end in a newline, a last line, which the
-- log gets with a newline: nothing is lost, and nothing else is logged.
pub log_chunks-concat :
    (chunks : List Str)
    → (lines : List Str) × (left : Str) × Cut (concat chunks) lines left
      × (((left ≡ []) × (log_chunks chunks [] ≡ lines))
          ⊎ ((left ≢ []) × (log_chunks chunks [] ≡ lines ++ (left ++ codes "\n") ∷ [])))
log_chunks-concat chunks =
    let taken = take_lines (concat chunks) in
    (taken.0, taken.1, take_lines-Cut (concat chunks), ended taken.1 refl)
  where
    ended :
        (left : Str)
        → (take_lines (concat chunks)).1 ≡ left
        → (((take_lines (concat chunks)).1 ≡ [])
            × (log_chunks chunks [] ≡ (take_lines (concat chunks)).0))
          ⊎ (((take_lines (concat chunks)).1 ≢ [])
              × (log_chunks chunks []
                  ≡ (take_lines (concat chunks)).0
                    ++ ((take_lines (concat chunks)).1 ++ codes "\n") ∷ []))
    ended [] e =
        inl (e, log_chunks-take_lines chunks ∙ rw e (append_nil (take_lines (concat chunks)).0))
    ended (c ∷ s) e =
        inr ((λ none. absurd (cc (e, none))), log_chunks-take_lines chunks ∙ rw e refl)

-- What a writer of its own is sent.
abbrev pub received : List Write → Str
received [] = []
received ((w, bytes) ∷ ws) = bytes ++ received ws

received-append : (xs ys : List Write) → received (xs ++ ys) ≡ received xs ++ received ys
received-append [] ys = refl
received-append ((w, bytes) ∷ xs) ys =
    ap (λ (t : Str). bytes ++ t) (received-append xs ys)
    ∙ sym (append_assoc bytes (received xs) (received ys))

-- The outputs as the writers are to get them.
abbrev pub all_wrapped : Bool → List (Str × Str) → Str
all_wrapped tty [] = []
all_wrapped tty ((out, stream) ∷ outs) = wrapped tty stream out ++ all_wrapped tty outs

module _ (tty : Bool) where
  abbrev pub waiting : Str → ContainerIo
  waiting buf = record { tty = tty; attach_out = []; attach_buf = buf; attach_buf_flushed = false }

  -- Without a writer every output is kept.
  before-attach :
      (outs : List (Str × Str)) (buf : Str)
      → fan_out_all outs (waiting buf) ≡ ([], waiting (buf ++ all_wrapped tty outs))
  unfolding fan_out_all fan_out_or_buffer
  before-attach [] buf = ap (λ (t : Str). ([], waiting t)) (sym (append_nil buf))
  before-attach ((out, stream) ∷ outs) buf =
      before-attach outs (buf ++ wrapped tty stream out)
      ∙ ap (λ (t : Str). ([], waiting t))
          (append_assoc buf (wrapped tty stream out) (all_wrapped tty outs))

  abbrev serving : ℕ → Str → Bool → ContainerIo
  serving w buf flushed = record {
    tty = tty;
    attach_out = w ∷ [];
    attach_buf = buf;
    attach_buf_flushed = flushed;
  }

  -- With one writer every output is sent.
  after-attach :
      (outs : List (Str × Str)) (w : ℕ) (buf : Str) (flushed : Bool)
      → received (fan_out_all outs (serving w buf flushed)).0 ≡ all_wrapped tty outs
  unfolding fan_out_all fan_out_or_buffer
  after-attach [] w buf flushed = refl
  after-attach ((out, stream) ∷ outs) w buf flushed =
      ap (λ (t : Str). wrapped tty stream out ++ t) (after-attach outs w buf flushed)

  all_wrapped-append :
      (before after : List (Str × Str))
      → all_wrapped tty (before ++ after) ≡ all_wrapped tty before ++ all_wrapped tty after
  all_wrapped-append [] after = refl
  all_wrapped-append ((out, stream) ∷ before) after =
      ap (λ (t : Str). wrapped tty stream out ++ t) (all_wrapped-append before after)
      ∙ sym (append_assoc (wrapped tty stream out) (all_wrapped tty before) (all_wrapped tty after))

  attach_waiting :
      (buf : Str) (after : List (Str × Str)) (w : ℕ)
      → let attached = add_attach_writer w (waiting buf) in
        received (attached.0 ++ (fan_out_all after attached.1).0) ≡ buf ++ all_wrapped tty after
  unfolding add_attach_writer
  attach_waiting [] after w = after-attach after w [] false
  attach_waiting (c ∷ buf) after w = ap (λ (t : Str). (c ∷ buf) ++ t) (after-attach after w [] true)

  -- The first writer that attaches gets every output of the container, those before it attached
  -- too, in their order, and each once.
  pub first_writer_complete :
      (before after : List (Str × Str)) (w : ℕ)
      → let early = fan_out_all before (waiting []) in
        let attached = add_attach_writer w early.1 in
        (early.0 ≡ [])
        × (received (attached.0 ++ (fan_out_all after attached.1).0)
            ≡ all_wrapped tty (before ++ after))
  first_writer_complete before after w =
      let early = before-attach before [] in
      let whole = all_wrapped-append before after in
      (
        ap (λ (r : List Write × ContainerIo). r.0) early,
        rw early (attach_waiting (all_wrapped tty before) after w ∙ sym whole),
      )
