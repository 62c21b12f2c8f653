-- ===== src/Log/Types.antt =====
-- `Message` and `ReadOpts` of internal/log/driver.go, and the entries of internal/log/jsonfile. A
-- time is a number of nanoseconds; the zero time of an option is `none`.
use kogia.Base.{ℕ, Bool, Option, Str, ℤ}
use kogia.Store.Bolt.{Json}

pub record Message : Type 0 where
  pub stream : Str
  pub line : Str
  pub timestamp : ℕ

pub record ReadOpts : Type 0 where
  pub since : Option ℕ
  pub until : Option ℕ
  pub tail : ℤ
  pub stdout : Bool
  pub stderr : Bool

-- `logEntry`
pub record LogEntry : Type 0 where
  pub log : Str
  pub stream : Str
  pub time : Str

-- `encoding/json` for entries, and `Format` and `Parse` of package time at RFC3339Nano.
pub record Codec : Type 0 where
  pub json : Json LogEntry
  pub format_time : ℕ → Str
  pub parse_time : Str → Option ℕ

abbrev pub entry_of : Codec → Message → LogEntry
entry_of codec m = record { log = m.line; stream = m.stream; time = codec.format_time m.timestamp }
