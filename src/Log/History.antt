-- ===== src/Log/History.antt =====
-- The messages in the files of a log, from the oldest file to the log itself, and what `ReadLogs`
-- gives of them.
use mathlib.Core.List.{append-nil}
use kogia.Base.{
  ℕ, zero, suc, ◌+◌, ◌<◌, ◌≤◌, ◌≡◌, refl, sym, ap, ◌∙◌, inl, inr, Bool-cases, Option-cases, true,
  false, ltb, none, some, Option, List, [], ◌∷◌, ◌++◌, Str, append_assoc, if◌then◌else◌, All,
  negsuc, arith,
}
use kogia.Log.Types.{Message, ReadOpts, Codec}
use kogia.Log.Driver.{Files, Driver, is_missing, more_rotated}
use kogia.Log.Reader.{
  is_wanted, read_line, read_lines, read_log_file, existing, insert_desc, sort_desc, rotated_files,
  read_each, apply_tail, read_files, scan,
}

-- Everything is asked for.
abbrev pub all_opts : ReadOpts
all_opts = record { since = none; until = none; tail = negsuc 0; stdout = true; stderr = true }

-- The messages that the options ask for, but for the tail.
abbrev pub wanted : ReadOpts → List Message → List Message
wanted opts [] = []
wanted opts (m ∷ ms) =
    let rest = wanted opts ms in if is_wanted opts m.stream m.timestamp then m ∷ rest else rest

wanted-append :
    (opts : ReadOpts) (ms ms' : List Message)
    → wanted opts (ms ++ ms') ≡ wanted opts ms ++ wanted opts ms'
wanted-append opts [] ms' = refl
wanted-append opts (m ∷ ms) ms' = ground (arith, wanted-append opts ms ms')

module _ (codec : Codec) (opts : ReadOpts) where
  read_line-wanted :
      (line : Str) → read_line codec opts line ≡ wanted opts (read_line codec all_opts line)
  unfolding read_line is_wanted
  read_line-wanted line = elim (Option-cases (codec.json.unmarshal line)) [
    | inl bad ↦ ground (arith, bad)
    | inr (entry, e) ↦ elim (Option-cases (codec.parse_time entry.time)) [
      | inl bad ↦ ground (arith, e, bad)
      | inr (t, et) ↦ ground (arith, e, et)
    ]
  ]

  read_lines-wanted :
      (lines : List Str)
      → read_lines codec opts lines ≡ wanted opts (read_lines codec all_opts lines)
  unfolding read_lines
  read_lines-wanted [] = refl
  read_lines-wanted (line ∷ lines) =
      rw (read_line-wanted line, read_lines-wanted lines)
        (sym (wanted-append opts (read_line codec all_opts line) (read_lines codec all_opts lines)))

  read_log_file-wanted :
      (content : Option Str)
      → read_log_file codec opts content ≡ wanted opts (read_log_file codec all_opts content)
  unfolding read_log_file
  read_log_file-wanted none = refl
  read_log_file-wanted (some text) = read_lines-wanted (scan text)

  read_each-wanted :
      (files : Files) (is : List ℕ)
      → read_each codec opts files is ≡ wanted opts (read_each codec all_opts files is)
  unfolding read_each
  read_each-wanted files [] = refl
  read_each-wanted files (i ∷ is) =
      rw (read_log_file-wanted (files i), read_each-wanted files is)
        (sym (
          wanted-append opts (read_log_file codec all_opts (files i))
            (read_each codec all_opts files is)))

  -- `ReadLogs` gives the last messages of those that the options ask for.
  pub read_files-wanted :
      (d : Driver)
      → read_files codec opts d ≡ apply_tail opts.tail (wanted opts (read_files codec all_opts d))
  unfolding read_files
  read_files-wanted d =
      ap (apply_tail opts.tail)
        (read_each-wanted d.files (rotated_files d.files d.max_files ++ 0 ∷ []))

add-zero : (i : ℕ) → i + 0 ≡ i
add-zero i = omega arith

up : (i k : ℕ) → suc i + k ≡ i + suc k
up i k = omega arith

module _ (codec : Codec) where
  abbrev pub messages : Option Str → List Message
  messages content = read_log_file codec all_opts content

  -- The messages of the files `i` to `i + k - 1`, the highest number first.
  unfoldable pub span : Files → ℕ → ℕ → List Message
  span files i zero = []
  span files i (suc k) = span files (suc i) k ++ messages (files i)

  -- All that is kept.
  abbrev pub history : Driver → List Message
  history d = span d.files 0 (suc (suc (more_rotated d.max_files)))

  -- The messages of the file that the next rotation overwrites.
  abbrev pub oldest : Driver → List Message
  oldest d = messages (d.files (suc (more_rotated d.max_files)))

  insert_desc-last : (i : ℕ) (js : List ℕ) → All (λ j. i < j) js → insert_desc i js ≡ js ++ i ∷ []
  unfolding insert_desc
  insert_desc-last i [] h = refl
  insert_desc-last i (j ∷ js) h =
      let later : ltb j i ≡ false = ground (arith, h.0) in
      rw later (ap (λ (t : List ℕ). j ∷ t) (insert_desc-last i js h.1))

  All-insert_desc :
      (i k : ℕ) (js : List ℕ) → i < k → All (λ j. i < j) js → All (λ j. i < j) (insert_desc k js)
  unfolding insert_desc
  All-insert_desc i k [] lt h = (lt, tt)
  All-insert_desc i k (j ∷ js) lt h = elim (Bool-cases (ltb j k)) [
    | inl e ↦ rw e (lt, h)
    | inr e ↦ rw e (h.0, All-insert_desc i k js lt h.1)
  ]

  sorted-Above :
      (files : Files) (k i i' : ℕ) → i' < i → All (λ j. i' < j) (sort_desc (existing files k i))
  unfolding existing sort_desc
  sorted-Above files zero i i' lt = tt
  sorted-Above files (suc k) i i' lt = elim (Bool-cases (is_missing (files i))) [
    | inl e ↦ rw e (sorted-Above files k (suc i) i' (omega arith))
    | inr e ↦ rw e (
        All-insert_desc i' i (sort_desc (existing files k (suc i))) lt
          (sorted-Above files k (suc i) i' (omega arith)))
  ]

  read_each-append :
      (files : Files) (is js : List ℕ)
      → read_each codec all_opts files (is ++ js)
        ≡ read_each codec all_opts files is ++ read_each codec all_opts files js
  unfolding read_each
  read_each-append files [] js = refl
  read_each-append files (i ∷ is) js = rw (read_each-append files is js) (
      sym (
        append_assoc (messages (files i)) (read_each codec all_opts files is)
          (read_each codec all_opts files js)))

  read_sorted :
      (files : Files) (k i : ℕ)
      → read_each codec all_opts files (sort_desc (existing files k i)) ≡ span files i k
  unfolding existing sort_desc span read_each read_log_file
  read_sorted files zero i = refl
  read_sorted files (suc k) i = elim (Option-cases (files i)) [
    | inl gone ↦
        rw (gone, read_log_file)
          (read_sorted files k (suc i) ∙ sym (append-nil (span files (suc i) k)))
    | inr (content, there) ↦
        let found : is_missing (files i) ≡ false = rw there refl in
        let js = sort_desc (existing files k (suc i)) in
        rw found (
          ap (read_each codec all_opts files)
            (insert_desc-last i js (sorted-Above files k (suc i) i (omega arith)))
          ∙ read_each-append files js (i ∷ [])
          ∙ (rw (read_sorted files k (suc i)) (
              ap (λ (t : List Message). span files (suc i) k ++ t)
                (append-nil (messages (files i))))))
  ]

  -- `ReadLogs` with everything asked for gives the files' messages, the oldest file first.
  pub read_files-history : (d : Driver) → read_files codec all_opts d ≡ history d
  unfolding read_files rotated_files read_each span
  read_files-history d =
      let n = suc (more_rotated d.max_files) in
      read_each-append d.files (sort_desc (existing d.files n 1)) (0 ∷ [])
      ∙ (rw (read_sorted d.files n 1)
          (ap (λ (t : List Message). span d.files 1 n ++ t) (append-nil (messages (d.files 0)))))

  -- A span depends on its files only.
  pub span-ext :
      (f g : Files) (i k : ℕ) → ((j : ℕ) → i ≤ j → j < i + k → f j ≡ g j) → span f i k ≡ span g i k
  unfolding span
  span-ext f g i zero h = refl
  span-ext f g i (suc k) h =
      rw
        (
          span-ext f g (suc i) k (λ j lo hi. h j (omega arith) (omega arith)),
          h i (omega arith) (omega arith),
        )
        refl

  -- Files that moved up by one.
  pub span_up :
      (f g : Files) (i k : ℕ)
      → ((j : ℕ) → i ≤ j → j < i + k → g (suc j) ≡ f j)
      → span g (suc i) k ≡ span f i k
  unfolding span
  span_up f g i zero h = refl
  span_up f g i (suc k) h =
      rw
        (
          span_up f g (suc i) k (λ j lo hi. h j (omega arith) (omega arith)),
          h i (omega arith) (omega arith),
        )
        refl

  -- The oldest file comes first.
  pub span_top : (f : Files) (i k : ℕ) → span f i (suc k) ≡ messages (f (i + k)) ++ span f i k
  unfolding span
  span_top f i zero = rw (add-zero i) (sym (append-nil (messages (f i))))
  span_top f i (suc k) =
      ap (λ (t : List Message). t ++ messages (f i)) (span_top f (suc i) k)
      ∙ append_assoc (messages (f (suc i + k))) (span f (suc i) k) (messages (f i))
      ∙ rw (up i k) refl
