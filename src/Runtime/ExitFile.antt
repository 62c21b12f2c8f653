-- ===== src/Runtime/ExitFile.antt =====
-- The texts that internal/runtime/wait.go and oom.go read and write: the exit code file of a container, and
-- the control group's memory.events and the process's cgroup file.
use kogia.Base.{
  ℕ, ◌+◌, ◌-◌, ◌*◌, ◌<◌, ◌≡◌, refl, Bool, true, false, ◌&&◌, ◌||◌, not, Option, none, some, List,
  [], ◌∷◌, ◌++◌, Str, codes, str_eq, has_prefix, trim_prefix, cut, format_uint, ltb, leb, ◌==◌,
  if◌then◌else◌, arith,
}
use kogia.Base.Split.{split}
use kogia.Base.Bits.{every_below, every_below_at}

-- The digits of a number that is not signed.
unfoldable pub digits : Str → ℕ → Option ℕ
digits [] n = some n
digits (c ∷ s) n =
    let rest = digits s (n * 10 + (c - b'0')) in if leb b'0' c && leb c b'9' then rest else none

-- `strconv.Atoi`, of numbers that are not negative: no text that the daemon writes is.
unfoldable pub atoi : Str → Option ℕ
atoi [] = none
atoi (c ∷ s) = elim (digits (if c == b'+' then s else c ∷ s) 0) [
  | none ↦ none
  | some n ↦ if str_eq (c ∷ s) (codes "+") || leb 9223372036854775808 n then none else some n
]

-- `strconv.FormatBool` and `strconv.ParseBool`
abbrev pub format_bool : Bool → Str
format_bool true = codes "true"
format_bool false = codes "false"

abbrev pub is_one_of : Str → List Str → Bool
is_one_of s [] = false
is_one_of s (t ∷ ts) = str_eq s t || is_one_of s ts

unfoldable pub parse_bool : Str → Option Bool
parse_bool s =
    if is_one_of s
      (codes "1" ∷ codes "t" ∷ codes "T" ∷ codes "TRUE" ∷ codes "true" ∷ codes "True" ∷ [])
    then some true
    else if is_one_of s
        (codes "0" ∷ codes "f" ∷ codes "F" ∷ codes "FALSE" ∷ codes "false" ∷ codes "False" ∷ [])
    then some false
    else none

-- The content that `writeExitCodeFile` writes.
unfoldable pub exit_code_text : ℕ → Bool → Str
unfolding format_uint
exit_code_text code oom = format_uint code ++ (codes "\n" ++ (format_bool oom ++ codes "\n"))

-- `readExitCodeFile` on the content of the file. The first two of `strings.SplitN(s, "\n", 3)` are
-- the first two of all lines.
unfoldable pub parse_exit_code : Str → Option (ℕ × Bool)
unfolding split digits atoi parse_bool
parse_exit_code text = elim (split b'\n' text) [
  | [] ↦ none
  | line ∷ [] ↦ none
  | line ∷ line' ∷ lines ↦ elim (atoi line) [
    | none ↦ none
    | some code ↦ elim (parse_bool line') [ none ↦ none | some oom ↦ some (code, oom) ]
  ]
]

-- The lines of memory.events: the first with the key "oom_kill" decides.
unfoldable pub oom_line : List Str → Bool
unfolding digits atoi
oom_line [] = false
oom_line (line ∷ lines) =
    let rest = oom_line lines in
    let (key, value, found) = cut line b' ' in
    if not found || not (str_eq key (codes "oom_kill"))
    then rest
    else elim (atoi value) [ none ↦ false | some count ↦ ltb 0 count ]

-- `isOOMKilled` on the content of the file; `none` is a file that cannot be read.
unfoldable pub is_oom_killed : Option Str → Bool
unfolding split oom_line
is_oom_killed none = false
is_oom_killed (some text) = oom_line (split b'\n' text)

-- `checkOOMKill` of internal/runtime/oom.go, which reads the same file.
unfoldable pub check_oom_kill : Option Str → Bool
unfolding split oom_line
check_oom_kill none = false
check_oom_kill (some text) = oom_line (split b'\n' text)

unfoldable pub cgroup_line : List Str → Option Str
cgroup_line [] = none
cgroup_line (line ∷ lines) =
    let rest = cgroup_line lines in
    if not (has_prefix line (codes "0::"))
    then rest
    else some (codes "/sys/fs/cgroup" ++ trim_prefix line (codes "0::"))

-- `resolveCgroupPath`
unfoldable pub resolve_cgroup_path : Option Str → Option Str
unfolding split cgroup_line
resolve_cgroup_path none = none
resolve_cgroup_path (some text) = cgroup_line (split b'\n' text)

-- Whether the result is this code with this flag.
is_result : Bool → ℕ → Option (ℕ × Bool) → Bool
is_result oom code none = false
is_result oom code (some (c, o)) = c == code && (if oom then o else not o)

is_result_sound :
    (oom : Bool) (code : ℕ) (o : Option (ℕ × Bool))
    → is_result oom code o ≡ true
    → o ≡ some (code, oom)
unfolding is_result
is_result_sound oom code none h = cc
is_result_sound true code (some (c, o)) h = ground (arith, h)
is_result_sound false code (some (c, o)) h = ground (arith, h)

reads_back : Bool → ℕ → Bool
unfolding is_result parse_exit_code exit_code_text
reads_back oom code = is_result oom code (parse_exit_code (exit_code_text code oom))

oom_table : every_below 256 (reads_back true) ≡ true
unfolding every_below reads_back
oom_table = refl

plain_table : every_below 256 (reads_back false) ≡ true
unfolding every_below reads_back
plain_table = refl

-- The exit code and the flag that were written to a container's file are read back: a code of an
-- exited process is below 256.
pub parse-exit_code_text :
    (code : ℕ) (oom : Bool)
    → code < 256
    → parse_exit_code (exit_code_text code oom) ≡ some (code, oom)
unfolding reads_back
parse-exit_code_text code true lt =
    is_result_sound true code (parse_exit_code (exit_code_text code true))
      (every_below_at 256 (reads_back true) code oom_table lt)
parse-exit_code_text code false lt =
    is_result_sound false code (parse_exit_code (exit_code_text code false))
      (every_below_at 256 (reads_back false) code plain_table lt)
