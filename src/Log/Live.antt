-- ===== src/Log/Live.antt =====
-- When a driver takes messages, when it takes no more, and what the reader does not see.
use kogia.Log.Steps.{accepted, log_all}
use kogia.Base.{
  ℕ, ◌≤◌, ◌≡◌, refl, sym, ap, ◌∙◌, inl, inr, Bool-cases, Option-cases, true, false, not, ◌||◌, some,
  List, [], ◌∷◌, ◌++◌, Str, length, ok, err, arith,
}
use kogia.Log.Types.{Message, Codec, entry_of}
use kogia.Base.Numbers.{is_positive}
use kogia.Log.Driver.{
  Driver, Answers, LogError, rotate, rotate_if_needed, write, make_room, log_line, log, is_missing,
  shifted,
}
use kogia.Log.Rotation.{IsTidy, shifted_lem}
use kogia.Base.Split.{Lacks}
use kogia.Base.{All}
use kogia.Log.Types.{ReadOpts}
use kogia.Log.Reader.{max_token, read_lines, read_log_file}
use kogia.Log.Lines.{text, IsPlain, scan-text, scan-too_long}

-- All calls of the system succeed.
abbrev pub all_fine : Answers
all_fine = record {
  stat_ok = true;
  close_ok = true;
  remove_ok = true;
  shift_ok = λ i. true;
  rename_ok = true;
  open_ok = true;
  write_ok = true;
  written = 0;
}

pub all_fine-IsTidy : IsTidy all_fine
all_fine-IsTidy = record { removes = refl; renames = λ i. refl; writes_none = refl }

-- The log is open and there.
abbrev pub IsLive : Driver → Type 0
IsLive d = (d.is_open ≡ true) × (is_missing (d.files 0) ≡ false)

rotate-IsLive :
    (d : Driver) → IsLive d → ((rotate all_fine d).0 ≡ ok tt) × IsLive (rotate all_fine d).1
unfolding rotate
rotate-IsLive d (opened, there) =
    let kept : is_missing (shifted all_fine d 0) ≡ false =
      rw (shifted_lem all_fine all_fine-IsTidy d 0) there in
    rw kept (refl, (refl, refl))

make_room-IsLive :
    (size : ℕ) (d : Driver)
    → IsLive d
    → ((make_room size all_fine d).0 ≡ ok tt) × IsLive (make_room size all_fine d).1
unfolding rotate_if_needed
make_room-IsLive size d h = ground (arith, h.0, h.1, rotate-IsLive d h)

write-IsLive :
    (line : Str) (d : Driver)
    → IsLive d
    → ((write line all_fine d).0 ≡ ok tt) × IsLive (write line all_fine d).1
unfolding write
write-IsLive line d h = ground (arith, h.0, h.1)

-- An open log takes every message that can be marshalled, if no call of the system fails, and stays
-- open.
pub log-IsLive :
    (codec : Codec) (m : Message) (d : Driver) (line : Str)
    → codec.json.marshal (entry_of codec m) ≡ some line
    → IsLive d
    → ((log codec m all_fine d).0 ≡ ok tt) × IsLive (log codec m all_fine d).1
unfolding log log_line
log-IsLive codec m d line e h =
    let dat = line ++ b'\n' ∷ [] in
    let room = make_room (length dat) all_fine d in
    let (done, live) = make_room-IsLive (length dat) d h in
    let wrote = write-IsLive dat room.1 live in rw (log, e, log_line, done) wrote

-- A driver that is closed takes nothing.
log-closed :
    (codec : Codec) (m : Message) (ans : Answers) (d : Driver)
    → d.is_open ≡ false
    → (accepted (log codec m ans d).0 m ≡ []) × ((log codec m ans d).1 ≡ d)
unfolding log log_line write rotate_if_needed
log-closed codec m ans d closed = elim (Option-cases (codec.json.marshal (entry_of codec m))) [
  | inl bad ↦ ground (arith, bad)
  | inr (line, e) ↦ elim (Bool-cases (is_positive d.max_size)) [
    | inl lim ↦ ground (arith, e, lim, closed)
    | inr un ↦ ground (arith, e, un, closed)
  ]
]

log_all-closed :
    (codec : Codec) (calls : List (Message × Answers)) (d : Driver)
    → d.is_open ≡ false
    → log_all codec d calls ≡ ([], d)
unfolding log_all
log_all-closed codec [] d closed = refl
log_all-closed codec ((m, ans) ∷ calls) d closed =
    let (none_taken, same) = log-closed codec m ans d closed in
    rw (same, none_taken, log_all-closed codec calls d closed) refl

rotate_failed :
    (ans : Answers) (d : Driver) (e : LogError)
    → (rotate ans d).0 ≡ err e
    → (rotate ans d).1.is_open ≡ false
unfolding rotate
rotate_failed ans d e failed =
    elim (Bool-cases (not ans.rename_ok || is_missing (shifted ans d 0))) [
      | inl bad ↦ rw bad refl
      | inr renamed ↦ elim (Bool-cases ans.open_ok) [
        | inr bad ↦ rw (renamed, bad) refl
        | inl opened ↦ absurd (cc (rw (renamed, opened) at failed))
      ]
    ]

-- After a rotation that failed once, no later call of `Log` on the driver is accepted, and its files
-- stay as they are: the log is not opened again.
pub rotate_failed-log_all :
    (codec : Codec) (ans : Answers) (d : Driver) (e : LogError) (calls : List (Message × Answers))
    → (rotate ans d).0 ≡ err e
    → log_all codec (rotate ans d).1 calls ≡ ([], (rotate ans d).1)
rotate_failed-log_all codec ans d e calls failed =
    log_all-closed codec calls (rotate ans d).1 (rotate_failed ans d e failed)

-- A line of 64 KiB or more hides itself and all that was logged after it in its file: `ReadLogs` gives
-- what it gives of the lines before.
pub read_log_file-too_long :
    (codec : Codec) (opts : ReadOpts) (lines more : List Str) (long : Str)
    → All IsPlain lines
    → All (Lacks b'\n') (long ∷ more)
    → max_token ≤ length long
    → read_log_file codec opts (some (text (lines ++ long ∷ more)))
      ≡ read_log_file codec opts (some (text lines))
unfolding read_log_file
read_log_file-too_long codec opts lines more long plain lacks too_long =
    ap (read_lines codec opts)
      (scan-too_long lines more long plain lacks too_long ∙ sym (scan-text lines plain))
