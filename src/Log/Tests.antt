-- ===== src/Log/Tests.antt =====
-- The log driver at small inputs.
use kogia.Base.{
  ◌≡◌, ◌≤◌, refl, false, none, some, List, [], ◌∷◌, ◌++◌, Str, codes, length, err, ok, pos, arith,
  ℕ, zero, suc, replicate, length-replicate,
}
use kogia.Base.Split.{Lacks}
use kogia.Log.Types.{Message, ReadOpts, LogEntry, Codec}
use kogia.Log.Driver.{Driver, Answers, new, rotate, log, rename_failed}
use kogia.Log.Reader.{read_files, read_log_file, apply_tail}
use kogia.Log.Lines.{text, IsPlain}
use kogia.Log.History.{wanted, history, all_opts}
use kogia.Log.Steps.{IsReady, IsWritten, log_all, dropped}
use kogia.Log.Rotation.{IsTidy}
use kogia.Log.Kept.{log_all-Kept}
use kogia.Log.Sizes.{IsBounded, log-IsBounded}
use kogia.Log.Live.{
  all_fine, all_fine-IsTidy, IsLive, log-IsLive, rotate_failed-log_all, read_log_file-too_long,
}

abbrev out : Str → LogEntry
out line = record { log = line; stream = codes "stdout"; time = [] }

-- A codec for one stream and one time.
abbrev codec : Codec
codec = record {
  json = record { marshal = λ e. some e.log; unmarshal = λ s. some (out s) };
  format_time = λ t. [];
  parse_time = λ s. some 7;
}

abbrev said : Str → Message
said line = record { stream = codes "stdout"; line = line; timestamp = 7 }

abbrev empty : Driver
empty = new (pos 4) (pos 1) (λ i. none)

empty-IsReady : IsReady empty
unfolding new text
empty-IsReady opened = ([], refl, tt)

a-IsPlain : IsPlain (codes "a")
a-IsPlain = record { no_newline = (refl, tt); no_cr = (refl, tt); is_short = omega arith }

a-IsWritten : IsWritten codec (said (codes "a"))
a-IsWritten = record {
  line = codes "a";
  marshals = refl;
  plain = a-IsPlain;
  unmarshals = refl;
  parses = refl;
}

b-IsWritten : IsWritten codec (said (codes "b"))
b-IsWritten = record {
  line = codes "b";
  marshals = refl;
  plain = record { no_newline = (refl, tt); no_cr = (refl, tt); is_short = omega arith };
  unmarshals = refl;
  parses = refl;
}

abbrev cannot_rename : Answers
cannot_rename = record all_fine { rename_ok = false }

cannot_rename-IsTidy : IsTidy cannot_rename
cannot_rename-IsTidy = record { removes = refl; renames = λ i. refl; writes_none = refl }

abbrev calls : List (Message × Answers)
calls =
    (said (codes "a"), all_fine)
    ∷ (said (codes "b"), all_fine)
    ∷ (said (codes "a"), all_fine)
    ∷ (said (codes "b"), cannot_rename)
    ∷ []

abbrev last_one : ReadOpts
last_one = record all_opts { tail = pos 1 }

log_all-Kept_example :
    (kept : List Message) × (history codec empty ++ (log_all codec empty calls).0
      ≡ dropped codec empty calls ++ kept)
    × (read_files codec last_one (log_all codec empty calls).1
        ≡ apply_tail (pos 1) (wanted last_one kept))
log_all-Kept_example =
    log_all-Kept codec calls empty last_one
      (
        (a-IsWritten, all_fine-IsTidy),
        (
          (b-IsWritten, all_fine-IsTidy),
          ((a-IsWritten, all_fine-IsTidy), ((b-IsWritten, cannot_rename-IsTidy), tt)),
        ),
      )
      empty-IsReady

empty_limit : empty.max_size ≡ pos 4
unfolding new
empty_limit = refl

empty-IsBounded : IsBounded 4 empty
unfolding new
empty-IsBounded = record { sizes = λ j. ground arith; numbers = λ j lt. ground (arith, lt) }

log-IsBounded_example : IsBounded 4 (log codec (said (codes "a")) cannot_rename empty).1
log-IsBounded_example =
    log-IsBounded codec (said (codes "a")) cannot_rename empty (codes "a") 3 refl empty_limit
      (omega arith) empty-IsBounded

empty-IsLive : IsLive empty
unfolding new
empty-IsLive = (refl, refl)

log-IsLive_example :
    ((log codec (said (codes "a")) all_fine empty).0 ≡ ok tt)
    × IsLive (log codec (said (codes "a")) all_fine empty).1
log-IsLive_example = log-IsLive codec (said (codes "a")) empty (codes "a") refl empty-IsLive

not_renamed : (rotate cannot_rename empty).0 ≡ err rename_failed
unfolding rotate
not_renamed = refl

rotate_failed-log_all_example :
    log_all codec (rotate cannot_rename empty).1 calls ≡ ([], (rotate cannot_rename empty).1)
rotate_failed-log_all_example =
    rotate_failed-log_all codec cannot_rename empty rename_failed calls not_renamed

x-Lacks : (n : ℕ) → Lacks b'\n' (replicate n b'x')
x-Lacks zero = tt
x-Lacks (suc n) = (refl, x-Lacks n)

long_enough : (n : ℕ) → 65536 ≤ n → 65536 ≤ length {A = ℕ} (replicate n b'x')
long_enough n h = omega (arith, h, length-replicate {A = ℕ} n b'x')

read_log_file-too_long_example :
    read_log_file codec all_opts (some (text (codes "a" ∷ replicate 65536 b'x' ∷ codes "b" ∷ [])))
    ≡ read_log_file codec all_opts (some (text (codes "a" ∷ [])))
read_log_file-too_long_example =
    read_log_file-too_long codec all_opts (codes "a" ∷ []) (codes "b" ∷ []) (replicate 65536 b'x')
      (a-IsPlain, tt) (x-Lacks 65536, ((refl, tt), tt)) (long_enough 65536 (omega arith))
