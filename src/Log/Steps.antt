-- ===== src/Log/Steps.antt =====
-- What one call does to the messages in the files of a log: what it adds, and what a rotation overwrites.
use mathlib.Core.List.{append-nil}
use kogia.Base.{
  Bool, none, ◌&&◌, if◌then◌else◌, ◌+◌, ℕ, suc, ◌≡◌, refl, sym, ap, ◌∙◌, inl, inr, Bool-cases, true,
  false, not, ◌||◌, some, List, [], ◌∷◌, ◌++◌, Str, append_assoc, length, All, Outcome, ok, err,
  panic, arith,
}
use kogia.Log.Types.{Message, Codec, entry_of}
use kogia.Base.Numbers.{is_positive}
use kogia.Log.Driver.{
  Driver, Answers, LogError, append_line, set_file, content_of, more_rotated, fits, rotate,
  rotate_if_needed, write, make_room, log,
}
use kogia.Log.Reader.{read_log_file, read_line, read_lines, is_wanted}
use kogia.Log.Lines.{text, IsPlain, text-append, scan-text, All-snoc}
use kogia.Log.History.{all_opts, messages, span, history, oldest, span-ext}
use kogia.Log.Rotation.{IsTidy, Rotated, rotate-Rotated, history-Rotated}

-- While the log is open, its text is lines that the scanner gives back.
abbrev pub IsReady : Driver → Type 0
IsReady d =
    d.is_open ≡ true → (lines : List Str) × (d.files 0 ≡ some (text lines)) × All IsPlain lines

-- The message becomes one line of less than 64 KiB, which reads as the message again.
pub record IsWritten (codec : Codec) (m : Message) : Type 0 where
  pub line : Str
  pub marshals : codec.json.marshal (entry_of codec m) ≡ some line
  pub plain : IsPlain line
  pub unmarshals : codec.json.unmarshal line ≡ some (entry_of codec m)
  pub parses : codec.parse_time (codec.format_time m.timestamp) ≡ some m.timestamp

abbrev pub accepted : Outcome LogError (Unit {0}) → Message → List Message
accepted (ok u) m = m ∷ []
accepted (err e) m = []
accepted panic m = []

-- Calls of `Log` after one another: the messages that were accepted, and the driver.
unfoldable pub log_all : Codec → Driver → List (Message × Answers) → List Message × Driver
log_all codec d [] = ([], d)
log_all codec d ((m, ans) ∷ calls) =
    let logged = log codec m ans d in
    let rest = log_all codec logged.1 calls in (accepted logged.0 m ++ rest.0, rest.1)

-- Whether a line of this size starts a rotation: the log has a limit that the line would pass, and the
-- file was measured and closed.
unfoldable pub rotates : ℕ → Answers → Driver → Bool
rotates size ans d =
    is_positive d.max_size
    && d.is_open
    && ans.stat_ok
    && not (fits (length (content_of (d.files 0)) + size) d.max_size)
    && ans.close_ok

rotates_lem :
    (size : ℕ) (ans : Answers) (d : Driver)
    → rotates size ans d ≡ (
        is_positive d.max_size
        && d.is_open
        && ans.stat_ok
        && not (fits (length (content_of (d.files 0)) + size) d.max_size)
        && ans.close_ok)
unfolding rotates
rotates_lem size ans d = refl

abbrev pub pushed_out : Codec → ℕ → Answers → Driver → List Message
pushed_out codec size ans d = if rotates size ans d then oldest codec d else []

abbrev pub pushed_out_by : Codec → Message → Answers → Driver → List Message
pushed_out_by codec m ans d = elim (codec.json.marshal (entry_of codec m)) [
  | none ↦ []
  | some line ↦ pushed_out codec (length (line ++ b'\n' ∷ [])) ans d
]

-- What the calls overwrite: the messages of the oldest file at each rotation.
unfoldable pub dropped : Codec → Driver → List (Message × Answers) → List Message
dropped codec d [] = []
dropped codec d ((m, ans) ∷ calls) =
    pushed_out_by codec m ans d ++ dropped codec (log codec m ans d).1 calls

module _ (codec : Codec) where
  read_lines-append :
      (lines : List Str) (line : Str)
      → read_lines codec all_opts (lines ++ line ∷ [])
        ≡ read_lines codec all_opts lines ++ read_line codec all_opts line
  unfolding read_lines
  read_lines-append [] line = append-nil (read_line codec all_opts line)
  read_lines-append (l ∷ lines) line = rw (read_lines-append lines line) (
      sym (
        append_assoc (read_line codec all_opts l) (read_lines codec all_opts lines)
          (read_line codec all_opts line)))

  read_written : (m : Message) (w : IsWritten codec m) → read_line codec all_opts w.line ≡ m ∷ []
  unfolding read_line is_wanted
  read_written m w = ground (arith, w.unmarshals, w.parses)

  messages-text :
      (lines : List Str)
      → All IsPlain lines
      → messages codec (some (text lines)) ≡ read_lines codec all_opts lines
  unfolding read_log_file
  messages-text lines h = ap (read_lines codec all_opts) (scan-text lines h)

  -- What one step did: it lost some of the oldest messages, and the log can be written to.
  pub record Step (d : Driver) (lost new : List Message) (d' : Driver) : Type 0 where
    pub kept : history codec d ++ new ≡ lost ++ history codec d'
    pub ready : IsReady d'

  pub same_files :
      (d d' : Driver)
      → d'.files ≡ d.files
      → d'.max_files ≡ d.max_files
      → IsReady d'
      → Step d [] [] d'
  same_files d d' files max ready = record {
    kept = rw (files, max) (append-nil (history codec d));
    ready = ready;
  }

  IsReady-Rotated : (ans : Answers) (d d' : Driver) → Rotated ans d d' → IsReady d'
  unfolding text
  IsReady-Rotated ans d d' (Rotated.not_renamed same closed at) opened =
      absurd (cc (opened, closed))
  IsReady-Rotated ans d d' (Rotated.moved_up same empty open_empty up above) opened =
      ([], open_empty opened, tt)

  rotate-Step :
      (ans : Answers) (tidy : IsTidy ans) (d : Driver) → Step d (oldest codec d) [] (rotate ans d).1
  rotate-Step ans tidy d =
      let done = rotate-Rotated ans tidy d in
      record {
        kept =
            append-nil (history codec d) ∙ history-Rotated codec ans tidy d (rotate ans d).1 done;
        ready = IsReady-Rotated ans d (rotate ans d).1 done;
      }

  -- A step that starts no rotation loses nothing.
  quiet :
      (size : ℕ) (ans : Answers) (d d' : Driver)
      → rotates size ans d ≡ false
      → Step d [] [] d'
      → Step d (pushed_out codec size ans d) [] d'
  quiet size ans d d' e s = rw e s

  rotate_if_needed-Step :
      (size : ℕ) (ans : Answers) (tidy : IsTidy ans) (d : Driver)
      → is_positive d.max_size ≡ true
      → IsReady d
      → Step d (pushed_out codec size ans d) [] (rotate_if_needed size ans d).1
  unfolding rotate_if_needed
  rotate_if_needed-Step size ans tidy d limit ready =
      elim (Bool-cases (not d.is_open || not ans.stat_ok)) [
        | inl e ↦
            simp (rotate_if_needed, e)
              (quiet size ans d d (ground (arith, rotates_lem size ans d, e))
                (same_files d d refl refl ready))
        | inr e ↦ elim (Bool-cases (fits (length (content_of (d.files 0)) + size) d.max_size)) [
          | inl e' ↦
              simp (rotate_if_needed, e, e')
                (quiet size ans d d (ground (arith, rotates_lem size ans d, e'))
                  (same_files d d refl refl ready))
          | inr e' ↦ elim (Bool-cases ans.close_ok) [
            | inr e'' ↦
                simp (rotate_if_needed, e, e', e'')
                  (quiet size ans d (record d { is_open = false })
                    (ground (arith, rotates_lem size ans d, e''))
                    (same_files d (record d { is_open = false }) refl refl
                      (λ opened. absurd (cc opened))))
            | inl e'' ↦
                let full : rotates size ans d ≡ true =
                  ground (arith, rotates_lem size ans d, limit, e, e', e'') in
                simp (rotate_if_needed, e, e', e'', full) (rotate-Step ans tidy d)
          ]
        ]
      ]

  pub make_room-Step :
      (size : ℕ) (ans : Answers) (tidy : IsTidy ans) (d : Driver)
      → IsReady d
      → Step d (pushed_out codec size ans d) [] (make_room size ans d).1
  make_room-Step size ans tidy d ready = elim (Bool-cases (is_positive d.max_size)) [
    | inl e ↦ rw e (rotate_if_needed-Step size ans tidy d e ready)
    | inr e ↦ rw e (
        quiet size ans d d (ground (arith, rotates_lem size ans d, e))
          (same_files d d refl refl ready))
  ]

  -- The messages after a line was appended.
  appended :
      (m : Message) (w : IsWritten codec m) (d : Driver) (lines : List Str)
      → d.files 0 ≡ some (text lines)
      → All IsPlain lines
      → messages codec (some (content_of (d.files 0) ++ (w.line ++ b'\n' ∷ [])))
        ≡ messages codec (d.files 0) ++ m ∷ []
  appended m w d lines at plain = rw at (
      ap (λ (t : Str). messages codec (some t)) (sym (text-append lines w.line))
      ∙ messages-text (lines ++ w.line ∷ []) (All-snoc lines w.line plain w.plain)
      ∙ read_lines-append lines w.line
      ∙ rw (read_written m w, messages-text lines plain) refl)

  -- A write that added these bytes to the log.
  append_line-history :
      (d : Driver) (bytes : Str) (new : List Message)
      → messages codec (some (content_of (d.files 0) ++ bytes)) ≡ messages codec (d.files 0) ++ new
      → history codec d ++ new ≡ history codec (append_line bytes d)
  unfolding span
  append_line-history d bytes new e =
      let n = more_rotated d.max_files in
      let content = some (content_of (d.files 0) ++ bytes) in
      let others : span codec (set_file 0 content d.files) 1 (suc n)
          ≡ span codec d.files 1 (suc n) =
        span-ext codec (set_file 0 content d.files) d.files 1 (suc n)
          (λ j lo hi. ground (arith, lo)) in
      append_assoc (span codec d.files 1 (suc n)) (messages codec (d.files 0)) new
      ∙ rw (others, e) refl

  nothing_added :
      (d : Driver) (lines : List Str)
      → d.files 0 ≡ some (text lines)
      → messages codec (some (content_of (d.files 0) ++ [])) ≡ messages codec (d.files 0) ++ []
  nothing_added d lines at =
      rw (at, append-nil (text lines), append-nil (messages codec (some (text lines)))) refl

  pub write-Step :
      (m : Message) (w : IsWritten codec m) (ans : Answers) (tidy : IsTidy ans) (d : Driver)
      → IsReady d
      → Step d []
          (accepted (write (w.line ++ b'\n' ∷ []) ans d).0 m)
          (write (w.line ++ b'\n' ∷ []) ans d).1
  unfolding write
  write-Step m w ans tidy d ready = elim (Bool-cases d.is_open) [
    | inr closed ↦ simp (write, closed) (same_files d d refl refl ready)
    | inl opened ↦
        let (lines, at, plain) = ready opened in
        elim (Bool-cases ans.write_ok) [
          | inr e ↦
              simp (write, opened, e, tidy.writes_none)
                (record {
                  kept = append_line-history d [] [] (nothing_added d lines at);
                  ready = λ o. (lines, rw at (ap some (append-nil (text lines))), plain);
                })
          | inl e ↦
              simp (write, opened, e)
                (record {
                  kept =
                      append_line-history d (w.line ++ b'\n' ∷ []) (m ∷ [])
                        (appended m w d lines at plain);
                  ready = λ o. (
                    lines ++ w.line ∷ [],
                    rw at (ap some (sym (text-append lines w.line))),
                    All-snoc lines w.line plain w.plain,
                  );
                })
        ]
  ]
