-- ===== src/Log/Options.antt =====
-- The options of the json-file driver: `ParseOptions` and `parseSize`.
use kogia.Base.{
  ℕ, ◌-◌, ◌*◌, ◌^◌, ◌≡◌, refl, ◌||◌, Option, none, some, [], Str, codes, str_eq, ◌==◌,
  if◌then◌else◌, lookup, ℤ, pos, negsuc,
}
use kogia.Base.Maps.{Dict}
use kogia.Log.Driver.{Files, Driver, new}
use kogia.Base.Ascii.{to_lower, trim_space, trim_left, trim_right, last_byte, drop_last}
use kogia.Base.Numbers.{
  Number, malformed, too_large, number, parse_int, value_of, read_digits, times,
}

pub record Options : Type 0 where
  pub max_size : ℤ
  pub max_files : ℤ

abbrev sized : Number → ℕ → ℤ
sized malformed k = pos 0
sized (too_large neg) k = pos 0
sized (number n) k = times n k

-- The switch on the suffix.
abbrev multiplier : ℕ → Option ℕ
multiplier c =
    if c == b'k'
    then some 1024
    else if c == b'm'
    then some (1024 * 1024)
    else if c == b'g'
    then some (1024 * 1024 * 1024)
    else none

abbrev read_size : Str → ℤ
read_size s = elim (multiplier (last_byte 0 s)) [
  | none ↦ sized (parse_int s) 1
  | some k ↦ sized (parse_int (drop_last s)) k
]

unfoldable pub parse_size : Str → ℤ
unfolding parse_int trim_space to_lower drop_last
parse_size text =
    let s = trim_space (to_lower text) in
    if str_eq s [] || (str_eq s (codes "0") || str_eq s (codes "-1")) then pos 0 else read_size s

unfoldable pub parse_options : Dict Str → Options
unfolding parse_size
parse_options cfg = record {
  max_size = elim (lookup (codes "max-size") cfg) [ none ↦ pos 0 | some v ↦ parse_size v ];
  max_files = elim (lookup (codes "max-file") cfg) [
    | none ↦ pos 0
    | some v ↦ value_of (parse_int v)
  ];
}

-- `NewFromLogConfig`
abbrev pub new_from_log_config : Dict Str → Files → Driver
new_from_log_config cfg files =
    let opts = parse_options cfg in new opts.max_size opts.max_files files

ten_megabytes : parse_size (codes " 10M ") ≡ pos 10485760
unfolding parse_size trim_left trim_right read_digits
ten_megabytes = refl

-- The product is not checked: such a size turns the rotation off.
too_many : parse_size (codes "8589934592g") ≡ negsuc (2 ^ 63 - 1)
unfolding parse_size trim_left trim_right read_digits
too_many = refl
