-- ===== src/Runtime/Stdio.antt =====
-- The output of a container: the frames of internal/api/stream/stdcopy.go, and the log lines and
-- attached writers of internal/runtime/io.go. The descriptors and the log driver are not here.
use kogia.Base.{
  ℕ, ◌/◌, ◌%◌, Bool, true, false, not, ◌&&◌, List, [], ◌∷◌, ◌++◌, Str, codes, str_eq, length, ◌==◌,
  if◌then◌else◌,
}

-- The stream of a line, "stdout" or "stderr", and its number in a frame.
abbrev pub stream_stderr : Str
stream_stderr = codes "stderr"

abbrev pub stream_type : Str → ℕ
stream_type stream = if str_eq stream stream_stderr then 2 else 1

-- `binary.BigEndian.PutUint32(b, uint32(n))`
abbrev pub put_uint32 : ℕ → Str
put_uint32 n = n / 16777216 % 256 ∷ n / 65536 % 256 ∷ n / 256 % 256 ∷ n % 256 ∷ []

-- `Frame`
unfoldable pub frame : ℕ → Str → Str
frame kind payload = kind ∷ 0 ∷ 0 ∷ 0 ∷ (put_uint32 (length payload) ++ payload)

-- `containerIO`, as far as the attached writers go. A writer is a number.
pub record ContainerIo : Type 0 where
  pub tty : Bool
  pub attach_out : List ℕ
  pub attach_buf : Str
  pub attach_buf_flushed : Bool

-- A write to a writer.
abbrev pub Write : Type 0
Write = ℕ × Str

abbrev pub write_all : List ℕ → Str → List Write
write_all [] out = []
write_all (w ∷ ws) out = (w, out) ∷ write_all ws out

abbrev pub is_empty : {A : Type 0} → List A → Bool
is_empty [] = true
is_empty (x ∷ xs) = false

-- What the writers get for an output.
abbrev pub wrapped : Bool → Str → Str → Str
wrapped tty stream out = if tty then out else frame (stream_type stream) out

-- `fanOutOrBuffer`
unfoldable pub fan_out_or_buffer : Str → Str → ContainerIo → List Write × ContainerIo
fan_out_or_buffer out stream cio =
    let bytes = wrapped cio.tty stream out in
    if is_empty cio.attach_out && not cio.attach_buf_flushed
    then ([], record cio { attach_buf = cio.attach_buf ++ bytes })
    else (write_all cio.attach_out bytes, cio)

-- `AddAttachWriter`
unfoldable pub add_attach_writer : ℕ → ContainerIo → List Write × ContainerIo
add_attach_writer w cio =
    if not (is_empty cio.attach_buf)
    then (
      (w, cio.attach_buf) ∷ [],
      record cio {
        attach_buf = [];
        attach_buf_flushed = true;
        attach_out = cio.attach_out ++ w ∷ [];
      },
    )
    else ([], record cio { attach_out = cio.attach_out ++ w ∷ [] })

abbrev pub remove_first : ℕ → List ℕ → List ℕ
remove_first w [] = []
remove_first w (x ∷ xs) = if x == w then xs else x ∷ remove_first w xs

-- `RemoveAttachWriter`
unfoldable pub remove_attach_writer : ℕ → ContainerIo → ContainerIo
remove_attach_writer w cio = record cio { attach_out = remove_first w cio.attach_out }

-- A byte before the lines that are complete and what is left.
unfoldable pub add_byte : ℕ → List Str × Str → List Str × Str
add_byte c ([], left) = if c == b'\n' then ((c ∷ []) ∷ [], left) else ([], c ∷ left)
add_byte c (line ∷ lines, left) =
    if c == b'\n' then ((c ∷ []) ∷ line ∷ lines, left) else ((c ∷ line) ∷ lines, left)

-- The loop over the newlines of the line buffer: the lines that are complete, and what is left.
unfoldable pub take_lines : Str → List Str × Str
unfolding add_byte
take_lines [] = ([], [])
take_lines (c ∷ s) = add_byte c (take_lines s)

-- The partial line at the end of the stream is logged with a newline.
abbrev pub flush_line : Str → List Str
flush_line [] = []
flush_line (c ∷ s) = (c ∷ s ++ codes "\n") ∷ []

-- The lines that `copyStreamRaw` logs for the chunks that it reads.
unfoldable pub log_chunks : List Str → Str → List Str
unfolding take_lines
log_chunks [] line_buf = flush_line line_buf
log_chunks (chunk ∷ chunks) line_buf =
    let (lines, left) = take_lines (line_buf ++ chunk) in lines ++ log_chunks chunks left

-- `copyStreamRaw` without the log: each chunk goes to the writers as it is.
unfoldable pub fan_out_all : List (Str × Str) → ContainerIo → List Write × ContainerIo
unfolding fan_out_or_buffer
fan_out_all [] cio = ([], cio)
fan_out_all ((out, stream) ∷ outs) cio =
    let sent = fan_out_or_buffer out stream cio in
    let rest = fan_out_all outs sent.1 in (sent.0 ++ rest.0, rest.1)

-- A line of `copyStream`, with the newline that it may lack at the end of the stream.
unfoldable pub full_line : Str → Str
full_line [] = codes "\n"
full_line (c ∷ []) = if c == b'\n' then c ∷ [] else c ∷ codes "\n"
full_line (c ∷ d ∷ s) = c ∷ full_line (d ∷ s)
