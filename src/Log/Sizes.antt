-- ===== src/Log/Sizes.antt =====
-- How much the files of a log take.
use mathlib.Core.Path.{subst}
use kogia.Base.{
  ℤ, ℕ, zero, suc, ◌+◌, ◌≤◌, ◌<◌, ◌≡◌, sym, inl, inr, Bool, Bool-cases, if◌then◌else◌, true,
  Outcome-cases, false, not, ◌||◌, none, some, Option, Option-cases, take, length-take, [], ◌∷◌,
  ◌++◌, Str, leb, length, length-append, ok, pos, arith,
}
use kogia.Log.Types.{Message, Codec, entry_of}
use kogia.Log.Driver.{
  Files, Driver, Answers, Logged, set_file, rename, shift, shifted, append_line, is_missing,
  content_of, more_rotated, rotate, rotate_if_needed, write, make_room, log_line, log,
}
use kogia.Log.Rotation.{rotate_empty}

-- No file is larger than the maximum, and none has a higher number than the last rotated one.
pub record IsBounded (max : ℕ) (d : Driver) : Type 0 where
  pub sizes : (j : ℕ) → length (content_of (d.files j)) ≤ max
  pub numbers : (j : ℕ) → suc (more_rotated d.max_files) < j → d.files j ≡ none

-- The same of files of which `n` may be rotated ones beside the first.
record AreBounded (max n : ℕ) (files : Files) : Type 0 where
  sizes : (j : ℕ) → length (content_of (files j)) ≤ max
  numbers : (j : ℕ) → suc n < j → files j ≡ none

module _ (max n : ℕ) where
  set_file-AreBounded :
      (files : Files) (i : ℕ) (content : Option Str)
      → AreBounded max n files
      → i ≤ suc n
      → length (content_of content) ≤ max
      → AreBounded max n (set_file i content files)
  set_file-AreBounded files i content h le fits = record {
    sizes = λ j. ground (arith, h.sizes j, fits);
    numbers = λ j lt. ground (arith, h.numbers j lt, le, lt);
  }

  rename-AreBounded :
      (files : Files) (src dst : ℕ)
      → AreBounded max n files
      → src ≤ suc n
      → dst ≤ suc n
      → AreBounded max n (rename src dst files)
  unfolding rename
  rename-AreBounded files src dst h le le' = elim (Option-cases (files src)) [
    | inl gone ↦ rw (rename, gone) h
    | inr (content, there) ↦
        let old : length content ≤ max = ground (arith, there, h.sizes src) in
        rw (rename, there)
          (set_file-AreBounded (set_file src none files) dst (some content)
            (set_file-AreBounded files src none h le (omega arith)) le' old)
  ]

  shift-AreBounded :
      (shift_ok : ℕ → Bool) (i : ℕ) (files : Files)
      → AreBounded max n files
      → i ≤ n
      → AreBounded max n (shift shift_ok i files)
  unfolding shift
  shift-AreBounded shift_ok zero files h le = h
  shift-AreBounded shift_ok (suc i) files h le = elim (Bool-cases (shift_ok (suc i))) [
    | inl moved ↦ rw moved (
        shift-AreBounded shift_ok i (rename (suc i) (suc (suc i)) files)
          (rename-AreBounded files (suc i) (suc (suc i)) h (omega arith) (omega arith))
          (omega arith))
    | inr stays ↦ rw stays (shift-AreBounded shift_ok i files h (omega arith))
  ]

shifted-AreBounded :
    (max : ℕ) (ans : Answers) (d : Driver)
    → AreBounded max (more_rotated d.max_files) d.files
    → AreBounded max (more_rotated d.max_files) (shifted ans d)
shifted-AreBounded max ans d h =
    let n = more_rotated d.max_files in
    elim (Bool-cases ans.remove_ok) [
      | inl gone ↦ rw gone (
          shift-AreBounded max n ans.shift_ok n (set_file (suc n) none d.files)
            (set_file-AreBounded max n d.files (suc n) none h (omega arith) (omega arith))
            (omega arith))
      | inr stays ↦ rw stays (shift-AreBounded max n ans.shift_ok n d.files h (omega arith))
    ]

module _ (max : ℕ) (d : Driver) where
  from_files : AreBounded max (more_rotated d.max_files) d.files → IsBounded max d
  from_files h = record { sizes = h.sizes; numbers = h.numbers }

  to_files : IsBounded max d → AreBounded max (more_rotated d.max_files) d.files
  to_files h = record { sizes = h.sizes; numbers = h.numbers }

rotate-IsBounded :
    (max : ℕ) (ans : Answers) (d : Driver) → IsBounded max d → IsBounded max (rotate ans d).1
unfolding rotate
rotate-IsBounded max ans d h =
    let n = more_rotated d.max_files in
    let moved = shifted-AreBounded max ans d (to_files max d h) in
    let renamed = rename-AreBounded max n (shifted ans d) 0 1 moved (omega arith) (omega arith) in
    elim (Bool-cases (not ans.rename_ok || is_missing (shifted ans d 0))) [
      | inl failed ↦ rw failed (record { sizes = moved.sizes; numbers = moved.numbers })
      | inr done ↦ elim (Bool-cases ans.open_ok) [
        | inr failed ↦
            rw (done, failed) (record { sizes = renamed.sizes; numbers = renamed.numbers })
        | inl opened ↦
            let new =
              set_file-AreBounded max n (rename 0 1 (shifted ans d)) 0 (some []) renamed
                (omega arith) (omega arith) in
            rw (done, opened) (record { sizes = new.sizes; numbers = new.numbers })
      ]
    ]

-- There is room for a line of this length.
abbrev HasRoom : ℕ → ℕ → Driver → Type 0
HasRoom size max d = length (content_of (d.files 0)) + size ≤ max

-- The driver with this maximum.
abbrev limited : ℕ → Driver → Driver
limited max d = record d { max_size = pos (suc max) }

record HasMadeRoom (max size : ℕ) (logged : Logged) : Type 0 where
  bounded : IsBounded (suc max) logged.1
  room : logged.0 ≡ ok tt → HasRoom size (suc max) logged.1

module _ (max size : ℕ) (ans : Answers) (le : size ≤ suc max) (d : Driver)
    (h : IsBounded (suc max) d) where
  still : (o : Bool) → IsBounded (suc max) (record d { is_open = o; max_size = pos (suc max) })
  still o = record { sizes = h.sizes; numbers = h.numbers }

  rotate-HasMadeRoom : HasMadeRoom max size (rotate ans (limited max d))
  rotate-HasMadeRoom =
      let d' = limited max d in
      record {
        bounded = rotate-IsBounded (suc max) ans d' (still d.is_open);
        room = λ done. rw (rotate_empty ans d' done) (omega arith);
      }

  make_room-HasMadeRoom : HasMadeRoom max size (make_room size ans (limited max d))
  unfolding rotate_if_needed
  make_room-HasMadeRoom = elim (Bool-cases (not d.is_open || not ans.stat_ok)) [
    | inl e ↦ rw e (record { bounded = still d.is_open; room = λ bad. absurd (cc bad) })
    | inr e ↦ elim (Bool-cases (leb (length (content_of (d.files 0)) + size) (suc max))) [
      | inl e' ↦
          rw (e, e') (record { bounded = still d.is_open; room = λ done. ground (arith, e') })
      | inr e' ↦ elim (Bool-cases ans.close_ok) [
        | inr e'' ↦
            rw (e, e', e'') (record { bounded = still false; room = λ bad. absurd (cc bad) })
        | inl e'' ↦ simp (e, e', e'') rotate-HasMadeRoom
      ]
    ]
  ]

module _ (max : ℕ) (ans : Answers) (line : Str) where
  append_line-IsBounded :
      (d : Driver) (bytes : Str)
      → IsBounded (suc max) d
      → HasRoom (length bytes) (suc max) d
      → IsBounded (suc max) (append_line bytes d)
  append_line-IsBounded d bytes h room = record {
    sizes = λ j. ground (arith, h.sizes j, room, length-append (content_of (d.files 0)) bytes);
    numbers = λ j lt. ground (arith, h.numbers j lt);
  }

  write_lem :
      (d : Driver)
      → d.is_open ≡ true
      → (write line ans d).1 ≡ append_line (if ans.write_ok then line else take ans.written line) d
  unfolding write
  write_lem d opened = ground (arith, opened)

  write-IsBounded :
      (d : Driver)
      → IsBounded (suc max) d
      → HasRoom (length line) (suc max) d
      → IsBounded (suc max) (write line ans d).1
  unfolding write
  write-IsBounded d h room = elim (Bool-cases d.is_open) [
    | inr closed ↦ simp (write, closed) h
    | inl opened ↦
        let bytes = if ans.write_ok then line else take ans.written line in
        let fits : HasRoom (length bytes) (suc max) d =
          ground (arith, room, length-take ans.written line) in
        subst (IsBounded (suc max)) (sym (write_lem d opened))
          (append_line-IsBounded d bytes h fits)
  ]

  log_line-IsBounded :
      (d : Driver)
      → IsBounded (suc max) d
      → length line ≤ suc max
      → IsBounded (suc max) (log_line line ans (limited max d)).1
  unfolding log_line
  log_line-IsBounded d h le =
      let room = make_room (length line) ans (limited max d) in
      let made = make_room-HasMadeRoom max (length line) ans le d h in
      elim (Outcome-cases room.0) [
        | inl (u, e) ↦ rw (log_line, e) (write-IsBounded room.1 made.bounded (made.room e))
        | inr (inl (x, e)) ↦ rw (log_line, e) (made.bounded)
        | inr (inr e) ↦ rw (log_line, e) (made.bounded)
      ]

-- With a maximum size no file of the log gets larger than it, and there are never more rotated files
-- than the options say (one, where they say none), whatever calls of the system fail, those of the
-- rotated files and a write in the middle of a line included: a `Log` keeps this, if the line with its
-- newline is not itself larger than the maximum.
pub log-IsBounded :
    (codec : Codec) (m : Message) (ans : Answers) (d : Driver) (line : Str) (max : ℕ)
    → codec.json.marshal (entry_of codec m) ≡ some line
    → d.max_size ≡ pos (suc max)
    → length line + 1 ≤ suc max
    → IsBounded (suc max) d
    → IsBounded (suc max) (log codec m ans d).1
unfolding log
log-IsBounded codec m ans d line max e limit le h =
    let dat = line ++ b'\n' ∷ [] in
    let kept =
      log_line-IsBounded max ans dat d h (omega (arith, length-append {0} line (b'\n' ∷ []))) in
    rw (log, e)
      (subst (λ (size : ℤ). IsBounded (suc max) (log_line dat ans (record d { max_size = size })).1)
        (sym limit) kept)
