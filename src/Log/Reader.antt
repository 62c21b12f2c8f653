-- ===== src/Log/Reader.antt =====
-- `ReadLogs` of internal/log/jsonfile/jsonfile.go. The channel is the list of what is sent on it.
use kogia.Base.{
  ℕ, zero, suc, ◌-◌, Bool, true, false, not, ◌&&◌, Option, none, some, List, [], ◌∷◌, ◌++◌, Str,
  codes, str_eq, length, ltb, ◌==◌, if◌then◌else◌, ℤ, pos, negsuc,
}
use kogia.Base.Split.{split}
use kogia.Log.Types.{Message, ReadOpts, Codec}
use kogia.Log.Driver.{Files, Driver, is_missing, content_of, more_rotated}

-- The longest token of a `bufio.Scanner`, with its newline.
abbrev pub max_token : ℕ
max_token = 65536

abbrev pub is_empty : Str → Bool
is_empty [] = true
is_empty (c ∷ s) = false

-- The scanner gives no token after the last newline.
unfoldable pub drop_last_empty : List Str → List Str
drop_last_empty [] = []
drop_last_empty (part ∷ []) = if is_empty part then [] else part ∷ []
drop_last_empty (part ∷ next ∷ parts) = part ∷ drop_last_empty (next ∷ parts)

-- The scanner stops at a line that does not fit into its buffer.
unfoldable pub take_short : ℕ → List Str → List Str
take_short max [] = []
take_short max (part ∷ parts) =
    let rest = take_short max parts in if ltb (length part) max then part ∷ rest else []

-- `dropCR` of package bufio.
unfoldable pub drop_cr : Str → Str
drop_cr [] = []
drop_cr (c ∷ []) = if c == b'\r' then [] else c ∷ []
drop_cr (c ∷ d ∷ s) = c ∷ drop_cr (d ∷ s)

unfoldable pub drop_crs : List Str → List Str
drop_crs [] = []
drop_crs (part ∷ parts) = drop_cr part ∷ drop_crs parts

-- The tokens of `scanner.Scan()` over a text.
unfoldable pub scan : Str → List Str
scan text = drop_crs (take_short max_token (drop_last_empty (split b'\n' text)))

abbrev pub is_before : ℕ → Option ℕ → Bool
is_before t none = false
is_before t (some bound) = ltb t bound

abbrev pub is_after : ℕ → Option ℕ → Bool
is_after t none = false
is_after t (some bound) = ltb bound t

-- The four guards of the loop.
unfoldable pub is_wanted : ReadOpts → Str → ℕ → Bool
is_wanted opts stream t =
    not (is_before t opts.since)
    && (not (is_after t opts.until)
        && (not (str_eq stream (codes "stdout") && not opts.stdout)
            && not (str_eq stream (codes "stderr") && not opts.stderr)))

-- One round of the loop of `readLogFile`: a line that cannot be read is skipped.
unfoldable pub read_line : Codec → ReadOpts → Str → List Message
read_line codec opts line = elim (codec.json.unmarshal line) [
  | none ↦ []
  | some entry ↦ elim (codec.parse_time entry.time) [
    | none ↦ []
    | some t ↦
        if is_wanted opts entry.stream t
        then record { stream = entry.stream; line = entry.log; timestamp = t } ∷ []
        else []
  ]
]

unfoldable pub read_lines : Codec → ReadOpts → List Str → List Message
read_lines codec opts [] = []
read_lines codec opts (line ∷ lines) = read_line codec opts line ++ read_lines codec opts lines

-- `readLogFile`: a file that is missing has no messages.
unfoldable pub read_log_file : Codec → ReadOpts → Option Str → List Message
read_log_file codec opts none = []
read_log_file codec opts (some text) = read_lines codec opts (scan text)

-- for i := 1; i <= maxFiles; i++: the files that are there.
unfoldable pub existing : Files → ℕ → ℕ → List ℕ
existing files zero i = []
existing files (suc k) i =
    let rest = existing files k (suc i) in if is_missing (files i) then rest else i ∷ rest

-- `sort.Slice` by falling numbers, as an insertion sort: the numbers are different.
unfoldable pub insert_desc : ℕ → List ℕ → List ℕ
insert_desc i [] = i ∷ []
insert_desc i (j ∷ js) = let rest = insert_desc i js in if ltb j i then i ∷ j ∷ js else j ∷ rest

unfoldable pub sort_desc : List ℕ → List ℕ
sort_desc [] = []
sort_desc (i ∷ is) = insert_desc i (sort_desc is)

-- `rotatedFiles`: the oldest first.
unfoldable pub rotated_files : Files → ℤ → List ℕ
rotated_files files max_files = sort_desc (existing files (suc (more_rotated max_files)) 1)

unfoldable pub read_each : Codec → ReadOpts → Files → List ℕ → List Message
read_each codec opts files [] = []
read_each codec opts files (i ∷ is) =
    read_log_file codec opts (files i) ++ read_each codec opts files is

unfoldable pub drop : {A : Type 0} → ℕ → List A → List A
drop zero xs = xs
drop (suc n) [] = []
drop (suc n) (x ∷ xs) = drop n xs

abbrev pub apply_tail : ℤ → List Message → List Message
apply_tail (negsuc n) ms = ms
apply_tail (pos n) ms = if ltb n (length ms) then drop (length ms - n) ms else ms

-- `readFiles`
unfoldable pub read_files : Codec → ReadOpts → Driver → List Message
read_files codec opts d =
    apply_tail opts.tail
      (read_each codec opts d.files (rotated_files d.files d.max_files ++ 0 ∷ []))

-- `ReadLogsFrom`, where the log can be opened or is missing.
abbrev pub read_logs_from : Codec → Files → ℤ → ReadOpts → List Message
read_logs_from codec files max_files opts =
    read_files codec opts
      (record { files = files; is_open = false; max_size = pos 0; max_files = max_files })

unfoldable pub copy_each : Files → List ℕ → Str
copy_each files [] = []
copy_each files (i ∷ is) = content_of (files i) ++ copy_each files is

-- `ReaderFromPath`: the bytes of the files.
unfoldable pub reader_from_path : Files → ℤ → Str
reader_from_path files max_files = copy_each files (rotated_files files max_files ++ 0 ∷ [])
