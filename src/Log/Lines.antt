-- ===== src/Log/Lines.antt =====
-- What the scanner sees of a text that was written line by line.
use mathlib.Core.List.{append-nil}
use kogia.Base.{
  ◌≤◌, sym, ◌<◌, ◌≡◌, refl, ap, ◌∙◌, true, false, List, [], ◌∷◌, ◌++◌, Str, length, ltb,
  append_assoc, All, arith,
}
use kogia.Base.Split.{split, split_append, Lacks}
use kogia.Log.Reader.{max_token, drop_last_empty, take_short, drop_cr, drop_crs, scan}

-- The lines, each with its newline.
unfoldable pub text : List Str → Str
text [] = []
text (line ∷ lines) = line ++ b'\n' ∷ text lines

-- A line that the scanner gives back as it was written.
pub record IsPlain (line : Str) : Type 0 where
  pub no_newline : Lacks b'\n' line
  pub no_cr : Lacks b'\r' line
  pub is_short : length line < max_token

pub text-append :
    (lines : List Str) (line : Str) → text (lines ++ line ∷ []) ≡ text lines ++ (line ++ b'\n' ∷ [])
unfolding text
text-append [] line = refl
text-append (l ∷ lines) line =
    ap (λ (t : Str). l ++ b'\n' ∷ t) (text-append lines line)
    ∙ rw (append_assoc l (b'\n' ∷ text lines) (line ++ b'\n' ∷ [])) refl

split-text :
    (lines : List Str) → All (Lacks b'\n') lines → split b'\n' (text lines) ≡ lines ++ [] ∷ []
unfolding text split
split-text [] h = refl
split-text (line ∷ lines) h =
    split_append b'\n' line (text lines) h.0
    ∙ ap (λ (t : List Str). line ∷ t) (split-text lines h.1)

drop_last_empty-append : (lines : List Str) → drop_last_empty (lines ++ [] ∷ []) ≡ lines
unfolding drop_last_empty
drop_last_empty-append [] = refl
drop_last_empty-append (line ∷ []) = refl
drop_last_empty-append (line ∷ next ∷ lines) =
    ap (λ (t : List Str). line ∷ t) (drop_last_empty-append (next ∷ lines))

drop_cr_lem : (s : Str) → Lacks b'\r' s → drop_cr s ≡ s
unfolding drop_cr
drop_cr_lem [] h = refl
drop_cr_lem (c ∷ []) h = rw h.0 refl
drop_cr_lem (c ∷ d ∷ s) h = ap (λ (t : Str). c ∷ t) (drop_cr_lem (d ∷ s) h.1)

All-Lacks : (lines : List Str) → All IsPlain lines → All (Lacks b'\n') lines
All-Lacks [] h = tt
All-Lacks (line ∷ lines) h = (h.0.no_newline, All-Lacks lines h.1)

short : (line : Str) → IsPlain line → ltb (length line) max_token ≡ true
short line h = ground (arith, h.is_short)

tokens :
    (lines rest : List Str)
    → All IsPlain lines
    → drop_crs (take_short max_token (lines ++ rest))
      ≡ lines ++ drop_crs (take_short max_token rest)
unfolding take_short drop_crs
tokens [] rest h = refl
tokens (line ∷ lines) rest h =
    rw (short line h.0)
      (rw (drop_cr_lem line h.0.no_cr) (ap (λ (t : List Str). line ∷ t) (tokens lines rest h.1)))

-- The scanner gives back the lines.
pub scan-text : (lines : List Str) → All IsPlain lines → scan (text lines) ≡ lines
unfolding scan take_short drop_crs
scan-text lines h =
    ap (λ (t : List Str). drop_crs (take_short max_token (drop_last_empty t)))
      (split-text lines (All-Lacks lines h))
    ∙ ap (λ (t : List Str). drop_crs (take_short max_token t)) (drop_last_empty-append lines)
    ∙ (ap (λ (t : List Str). drop_crs (take_short max_token t)) (sym (append-nil lines))
        ∙ (tokens lines [] h ∙ append-nil lines))

All-append :
    (lines more : List Str)
    → All (Lacks b'\n') lines
    → All (Lacks b'\n') more
    → All (Lacks b'\n') (lines ++ more)
All-append [] more h h' = h'
All-append (line ∷ lines) more h h' = (h.0, All-append lines more h.1 h')

-- At a line that is too long the scanner stops for good.
pub scan-too_long :
    (lines more : List Str) (long : Str)
    → All IsPlain lines
    → All (Lacks b'\n') (long ∷ more)
    → max_token ≤ length long
    → scan (text (lines ++ long ∷ more)) ≡ lines
unfolding scan take_short drop_crs
scan-too_long lines more long h h' too_long =
    let stops : ltb (length long) max_token ≡ false = ground arith in
    ap (λ (t : List Str). drop_crs (take_short max_token (drop_last_empty t)))
      (split-text (lines ++ long ∷ more) (All-append lines (long ∷ more) (All-Lacks lines h) h'))
    ∙ ap (λ (t : List Str). drop_crs (take_short max_token t))
        (drop_last_empty-append (lines ++ long ∷ more))
    ∙ (tokens lines (long ∷ more) h ∙ (rw stops refl ∙ append-nil lines))

pub All-snoc :
    (lines : List Str) (line : Str)
    → All IsPlain lines
    → IsPlain line
    → All IsPlain (lines ++ line ∷ [])
All-snoc [] line h p = (p, tt)
All-snoc (l ∷ lines) line h p = (h.0, All-snoc lines line h.1 p)
