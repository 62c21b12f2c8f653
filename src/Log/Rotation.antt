-- ===== src/Log/Rotation.antt =====
-- Where the files of a log are after a rotation.
use mathlib.Core.List.{append-nil}
use kogia.Base.{
  Bool, ◌⊎◌, ℕ, zero, suc, ◌+◌, ◌-◌, ◌<◌, ◌≤◌, ◌≡◌, refl, ap, ◌∙◌, inl, inr, Bool-cases,
  Option-cases, true, false, not, ◌||◌, leb, ◌==◌, none, some, Option, [], ◌++◌, Str, if◌then◌else◌,
  ok, arith,
}
use kogia.Log.Types.{Codec}
use kogia.Log.Driver.{
  Files, Driver, Answers, set_file, rename, shift, shifted, more_rotated, is_missing, rotate,
}
use kogia.Log.Reader.{read_log_file, read_lines}
use kogia.Log.Lines.{text, scan-text}
use kogia.Log.History.{all_opts, messages, span, history, oldest, span_up, span_top}

rename_lem :
    (files : Files) (i j : ℕ)
    → files (suc (suc i)) ≡ none
    → rename (suc i) (suc (suc i)) files j
      ≡ (if j == suc (suc i) then files (suc i) else if j == suc i then none else files j)
unfolding rename
rename_lem files i j free = elim (Option-cases (files (suc i))) [
  | inl gone ↦ ground (arith, gone, free)
  | inr (content, there) ↦ ground (arith, there)
]

-- The oldest file can be removed and the others renamed, and a write that fails writes nothing.
pub record IsTidy (ans : Answers) : Type 0 where
  pub removes : ans.remove_ok ≡ true
  pub renames : (i : ℕ) → ans.shift_ok i ≡ true
  pub writes_none : ans.written ≡ 0

-- The files 1 to `n` have moved up by one, if the place above them was free.
shift_lem :
    (shift_ok : ℕ → Bool) (all_ok : (i : ℕ) → shift_ok i ≡ true) (n : ℕ) (files : Files) (j : ℕ)
    → files (suc n) ≡ none
    → shift shift_ok n files j ≡ (
        if j == 0
        then files 0
        else if j == 1
        then none
        else if leb j (suc n)
        then files (j - 1)
        else files j)
unfolding shift
shift_lem shift_ok all_ok zero files j free = ground arith
shift_lem shift_ok all_ok (suc i) files j free =
    let f = rename (suc i) (suc (suc i)) files in
    rw (all_ok (suc i)) (
      ground (
        arith,
        shift_lem shift_ok all_ok i f j,
        rename_lem files i (suc i) free,
        rename_lem files i 0 free,
        rename_lem files i (j - 1) free,
        rename_lem files i j free,
      ))

pub shifted_lem :
    (ans : Answers) (tidy : IsTidy ans) (d : Driver) (j : ℕ)
    → shifted ans d j ≡ (
        if j == 0
        then d.files 0
        else if j == 1
        then none
        else if leb j (suc (more_rotated d.max_files))
        then d.files (j - 1)
        else d.files j)
shifted_lem ans tidy d j =
    let n = more_rotated d.max_files in
    rw (tidy.removes) (
      ground (
        arith,
        shift_lem ans.shift_ok tidy.renames n (set_file (suc n) none d.files) j (ground arith),
      ))

-- And with the log itself as the file 1.
renamed_lem :
    (ans : Answers) (tidy : IsTidy ans) (d : Driver) (j : ℕ)
    → is_missing (shifted ans d 0) ≡ false
    → rename 0 1 (shifted ans d) j ≡ (
        if j == 0
        then none
        else if leb j (suc (more_rotated d.max_files))
        then d.files (j - 1)
        else d.files j)
unfolding rename
renamed_lem ans tidy d j there = elim (Option-cases (shifted ans d 0)) [
  | inl gone ↦ absurd (ground (arith, gone, there))
  | inr (content, e) ↦ ground (arith, e, shifted_lem ans tidy d j, shifted_lem ans tidy d 0)
]

-- What a rotation did: it failed before or after the renames, or made a new log.
pub data Rotated (ans : Answers) (d : Driver) (d' : Driver) : Type 0 where
  not_renamed :
      d'.max_files ≡ d.max_files → d'.is_open ≡ false → d'.files ≡ shifted ans d → Rotated ans d d'
  moved_up :
      d'.max_files ≡ d.max_files
      → (d'.files 0 ≡ none) ⊎ (d'.files 0 ≡ some [])
      → (d'.is_open ≡ true → d'.files 0 ≡ some [])
      → ((j : ℕ) → j ≤ more_rotated d.max_files → d'.files (suc j) ≡ d.files j)
      → ((j : ℕ) → more_rotated d.max_files < j → d'.files (suc j) ≡ d.files (suc j))
      → Rotated ans d d'

pub rotate-Rotated :
    (ans : Answers) (tidy : IsTidy ans) (d : Driver) → Rotated ans d (rotate ans d).1
unfolding rotate
rotate-Rotated ans tidy d =
    let n = more_rotated d.max_files in
    elim (Bool-cases (not ans.rename_ok || is_missing (shifted ans d 0))) [
      | inl failed ↦ rw failed (not_renamed refl refl refl)
      | inr done ↦
          let there : is_missing (shifted ans d 0) ≡ false = ground (arith, done) in
          elim (Bool-cases ans.open_ok) [
            | inr failed ↦
                rw (done, failed)
                  (moved_up refl (inl (renamed_lem ans tidy d 0 there)) (λ e. absurd (cc e))
                    (λ j le. renamed_lem ans tidy d (suc j) there ∙ ground (arith, le))
                    (λ j lt. renamed_lem ans tidy d (suc j) there ∙ ground (arith, lt)))
            | inl opened ↦
                rw (done, opened)
                  (moved_up refl (inr refl) (λ e. refl)
                    (λ j le. ground (arith, le, renamed_lem ans tidy d (suc j) there))
                    (λ j lt. ground (arith, lt, renamed_lem ans tidy d (suc j) there)))
          ]
    ]

-- A rotation that succeeded has left an empty log.
pub rotate_empty :
    (ans : Answers) (d : Driver) → (rotate ans d).0 ≡ ok tt → (rotate ans d).1.files 0 ≡ some []
unfolding rotate
rotate_empty ans d done = elim (Bool-cases (not ans.rename_ok || is_missing (shifted ans d 0))) [
  | inl failed ↦ absurd (cc (rw failed at done))
  | inr renamed ↦ elim (Bool-cases ans.open_ok) [
    | inr failed ↦ absurd (cc (rw (renamed, failed) at done))
    | inl opened ↦ rw (renamed, opened) refl
  ]
]

zero_add : (n : ℕ) → 0 + n ≡ n
zero_add n = omega arith

module _ (codec : Codec) where
  messages_of_empty :
      (content : Option Str) → (content ≡ none) ⊎ (content ≡ some []) → messages codec content ≡ []
  unfolding read_log_file read_lines text
  messages_of_empty content (inl e) = rw e refl
  messages_of_empty content (inr e) = rw e (ap (read_lines codec all_opts) (scan-text [] tt))

  -- A rotation loses the oldest file and no other, however it ends.
  pub history-Rotated :
      (ans : Answers) (tidy : IsTidy ans) (d d' : Driver)
      → Rotated ans d d'
      → history codec d ≡ oldest codec d ++ history codec d'
  unfolding span
  history-Rotated ans tidy d d' (not_renamed same closed at) =
      let n = more_rotated d.max_files in
      let low : span codec d'.files 2 n ≡ span codec d.files 1 n =
        span_up codec d.files d'.files 1 n (λ j lo hi.
          ap (λ (f : Files). f (suc j)) at
          ∙ (shifted_lem ans tidy d (suc j) ∙ ground (arith, lo, hi))) in
      let mid =
        messages_of_empty (d'.files 1)
          (inl (ap (λ (f : Files). f 1) at ∙ shifted_lem ans tidy d 1)) in
      let bottom : d'.files 0 ≡ d.files 0 = ap (λ (f : Files). f 0) at ∙ shifted_lem ans tidy d 0 in
      span_top codec d.files 0 (suc n)
      ∙ rw (zero_add (suc n), same, low, mid, bottom, append-nil (span codec d.files 1 n)) refl
  history-Rotated ans tidy d d' (moved_up same empty open_empty up above) =
      let n = more_rotated d.max_files in
      let low : span codec d'.files 1 (suc n) ≡ span codec d.files 0 (suc n) =
        span_up codec d.files d'.files 0 (suc n) (λ j lo hi. up j (omega arith)) in
      let mid = messages_of_empty (d'.files 0) empty in
      span_top codec d.files 0 (suc n)
      ∙ rw (zero_add (suc n), same, mid, append-nil (span codec d'.files 1 (suc n)), low) refl
