-- ===== src/Runtime/FrameLaws.antt =====
-- A client's reading of the frames of internal/api/stream/stdcopy.go.
use kogia.Base.{
  ℕ, zero, suc, ◌+◌, ◌*◌, ◌/◌, ◌%◌, ◌<◌, ◌≡◌, refl, Option, none, some, [], ◌∷◌, ◌++◌, Str, length,
  arith,
}
use kogia.Runtime.Stdio.{frame}

-- A text cut after its first `n` bytes, if it has as many.
abbrev pub cut_at : ℕ → Str → Option (Str × Str)
cut_at zero s = some ([], s)
cut_at (suc n) [] = none
cut_at (suc n) (c ∷ s) = elim (cut_at n s) [ none ↦ none | some (a, b) ↦ some (c ∷ a, b) ]

-- A client's reading of one frame: the stream's number, the payload, and the rest.
unfoldable pub unframe : Str → Option (ℕ × Str × Str)
unframe (kind ∷ z0 ∷ z1 ∷ z2 ∷ a ∷ b ∷ c ∷ d ∷ s) =
    elim (cut_at (a * 16777216 + b * 65536 + c * 256 + d) s) [
      | none ↦ none
      | some (payload, rest) ↦ some (kind, payload, rest)
    ]
unframe s = none

cut_at-append : (s t : Str) → cut_at (length s) (s ++ t) ≡ some (s, t)
cut_at-append [] t = refl
cut_at-append (c ∷ s) t = rw (cut_at-append s t) refl

-- A client reads back the stream and the payload of a frame, and what follows it, if the payload
-- has less than 2^32 bytes.
pub unframe-frame :
    (kind : ℕ) (payload rest : Str)
    → length payload < 4294967296
    → unframe (frame kind payload ++ rest) ≡ some (kind, payload, rest)
unfolding unframe frame
unframe-frame kind payload rest lt =
    let n = length payload in
    let size : n / 16777216 % 256 * 16777216
          + n / 65536 % 256 * 65536
          + n / 256 % 256 * 256
          + n % 256
        ≡ n =
      omega (arith, lt) in
    rw (size, unframe) (rw (cut_at-append payload rest) refl)
