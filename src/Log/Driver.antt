-- ===== src/Log/Driver.antt =====
-- `Driver` of internal/log/jsonfile/jsonfile.go: `New`, `Log`, `Close` and the rotation. A file is
-- its number: 0 is the log itself, and `i` is the log's path with "." and `i`.
use kogia.Base.Numbers.{is_positive}
use kogia.Base.{
  ℕ, zero, suc, ◌+◌, Bool, true, false, not, ◌||◌, Option, none, some, [], ◌∷◌, ◌++◌, Str, length,
  take, leb, ◌==◌, if◌then◌else◌, Outcome, ok, err, panic, ℤ, pos, negsuc,
}
use kogia.Log.Types.{Message, Codec, entry_of}

abbrev pub Files : Type 0
Files = ℕ → Option Str

-- `is_open`: the file 0 is open for appending.
pub record Driver : Type 0 where
  pub files : Files
  pub is_open : Bool
  pub max_size : ℤ
  pub max_files : ℤ

pub data LogError : Type 0 where
  marshal_failed stat_failed close_failed rename_failed open_failed write_failed : LogError

-- How the calls of package os in one `Log` end: `shift_ok` for the rename of each rotated file, and
-- `written` for the bytes that a write that failed had written.
pub record Answers : Type 0 where
  pub stat_ok : Bool
  pub close_ok : Bool
  pub remove_ok : Bool
  pub shift_ok : ℕ → Bool
  pub rename_ok : Bool
  pub open_ok : Bool
  pub write_ok : Bool
  pub written : ℕ

abbrev pub Logged : Type 0
Logged = Outcome LogError (Unit {0}) × Driver

abbrev pub set_file : ℕ → Option Str → Files → Files
set_file i content files j = if i == j then content else files j

-- `os.Rename`: without its source it fails and changes nothing.
unfoldable pub rename : ℕ → ℕ → Files → Files
rename src dst files = elim (files src) [
  | none ↦ files
  | some content ↦ set_file dst (some content) (set_file src none files)
]

abbrev pub content_of : Option Str → Str
content_of none = []
content_of (some content) = content

-- `New` with the path's directory in place: the log is opened, and made if it is missing.
unfoldable pub new : ℤ → ℤ → Files → Driver
new max_size max_files files = record {
  files = set_file 0 (some (content_of (files 0))) files;
  is_open = true;
  max_size = max_size;
  max_files = max_files;
}

-- for i := maxRotated - 1; i >= 1; i-- { os.Rename(path.i, path.(i+1)) }
unfoldable pub shift : (ℕ → Bool) → ℕ → Files → Files
shift shift_ok zero files = files
shift shift_ok (suc i) files =
    shift shift_ok i (if shift_ok (suc i) then rename (suc i) (suc (suc i)) files else files)

-- `maxRotated`: one less, since there is always one rotated file.
abbrev pub more_rotated : ℤ → ℕ
more_rotated (pos zero) = 0
more_rotated (pos (suc n)) = n
more_rotated (negsuc n) = 0

abbrev pub fits : ℕ → ℤ → Bool
fits size (pos max) = leb size max
fits size (negsuc n) = false

abbrev pub is_missing : Option Str → Bool
is_missing none = true
is_missing (some content) = false

-- The files with the oldest one removed and the others moved up; errors are ignored.
abbrev pub shifted : Answers → Driver → Files
shifted ans d =
    let n = more_rotated d.max_files in
    shift ans.shift_ok n (if ans.remove_ok then set_file (suc n) none d.files else d.files)

-- The renames and the new file, with the old one closed.
unfoldable pub rotate : Answers → Driver → Logged
rotate ans d =
    let renamed = rename 0 1 (shifted ans d) in
    if not ans.rename_ok || is_missing (shifted ans d 0)
    then (err rename_failed, record d { files = shifted ans d; is_open = false })
    else if not ans.open_ok
    then (err open_failed, record d { files = renamed; is_open = false })
    else (ok tt, record d { files = set_file 0 (some []) renamed; is_open = true })

unfoldable pub rotate_if_needed : ℕ → Answers → Driver → Logged
rotate_if_needed write_size ans d =
    if not d.is_open || not ans.stat_ok
    then (err stat_failed, d)
    else if fits (length (content_of (d.files 0)) + write_size) d.max_size
    then (ok tt, d)
    else if not ans.close_ok
    then (err close_failed, record d { is_open = false })
    else rotate ans d

abbrev pub append_line : Str → Driver → Driver
append_line line d = record d { files = set_file 0 (some (content_of (d.files 0) ++ line)) d.files }

-- `d.file.Write(data)`: a write that fails may have written the first bytes.
unfoldable pub write : Str → Answers → Driver → Logged
write line ans d =
    if not d.is_open
    then (err write_failed, d)
    else if ans.write_ok
    then (ok tt, append_line line d)
    else (err write_failed, append_line (take ans.written line) d)

abbrev pub make_room : ℕ → Answers → Driver → Logged
make_room write_size ans d =
    if is_positive d.max_size then rotate_if_needed write_size ans d else (ok tt, d)

unfoldable pub log_line : Str → Answers → Driver → Logged
log_line line ans d =
    let room = make_room (length line) ans d in
    elim room.0 [ ok u ↦ write line ans room.1 | err e ↦ room | panic ↦ room ]

-- `Log`
unfoldable pub log : Codec → Message → Answers → Driver → Logged
log codec m ans d = elim (codec.json.marshal (entry_of codec m)) [
  | none ↦ (err marshal_failed, d)
  | some line ↦ log_line (line ++ b'\n' ∷ []) ans d
]

-- `Close`
unfoldable pub close : Driver → Driver
close d = record d { is_open = false }
