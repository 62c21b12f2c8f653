-- ===== src/Runtime/MountLaws.antt =====
-- A bind that is forced to be read-only, taken apart again.
use kogia.Base.{
  ◌≡◌, refl, ap, ◌∙◌, inl, inr, true, false, some, List, [], ◌∷◌, ◌++◌, Str, codes, if◌then◌else◌,
  Bool-cases, arith,
}
use kogia.Base.Split.{
  split, split3, join, split-Lacks, split_not_empty, split-join_parts, split3-join, split3_two,
  split3_three,
}
use kogia.Runtime.MountTypes.{BindParts}
use kogia.Runtime.Mounts.{read_options, with_options, read_bind}
use kogia.Runtime.VolumesFrom.{replace_rw, force_read_only}
use kogia.Runtime.BindOptions.{
  read_options-propagation, read_options-replaced, read_options-append, replace_rw-Lacks,
  replace_rw-not_empty, append-Lacks, append_not_empty,
}

-- The options as `forceReadOnly` writes them.
abbrev forced : Str → List Str
forced opts_str =
    let replaced = replace_rw (split b',' opts_str) in
    if replaced.1 then replaced.0 else replaced.0 ++ codes "ro" ∷ []

forced_options :
    (opts_str p : Str)
    → read_options (split b',' (join b',' (forced opts_str))) (true, p)
      ≡ (false, (read_options (split b',' opts_str) (true, p)).1)
forced_options opts_str p =
    let opts = split b',' opts_str in
    let lacks = replace_rw-Lacks opts (split-Lacks b',' opts_str) in
    let full = replace_rw-not_empty opts (split_not_empty b',' opts_str) in
    let propagation = read_options-propagation opts true true p in
    elim (Bool-cases (replace_rw opts).1) [
      | inl has_ro ↦ rw has_ro (
          rw (split-join_parts b',' (replace_rw opts).0 lacks full)
            (ground (arith, propagation, read_options-replaced opts true p has_ro)))
      | inr writable ↦ rw writable (
          rw
            (split-join_parts b',' ((replace_rw opts).0 ++ codes "ro" ∷ [])
              (append-Lacks (replace_rw opts).0 lacks) (append_not_empty (replace_rw opts).0))
            (read_options-append (replace_rw opts).0 true p
              ∙ ap (λ (x : Str). (false, x)) propagation))
    ]

read_empty : read_options (split b',' []) (true, codes "rprivate") ≡ (true, codes "rprivate")
unfolding read_options split
read_empty = refl

read_only_ro :
    read_options (split b',' (codes "ro")) (true, codes "rprivate") ≡ (false, codes "rprivate")
unfolding read_options split
read_only_ro = refl

force_parts :
    (text : Str) (parts : List Str) (q : BindParts)
    → split3 b':' text ≡ parts
    → read_bind text ≡ some q
    → read_bind (force_read_only text) ≡ some (record q { rw = false })
unfolding read_bind force_read_only
force_parts text [] q e h = absurd (ground (arith, e, h))
force_parts text (source ∷ []) q e h = absurd (ground (arith, e, h))
force_parts text (source ∷ destination ∷ []) q e h =
    let (first, second, joined) = split3_two b':' text source destination e in
    let was : with_options source destination [] ≡ q = ground (arith, e, h) in
    let parts : split3 b':' (text ++ codes ":ro") ≡ source ∷ destination ∷ codes "ro" ∷ [] =
      ap (split3 b':') (joined (codes "ro"))
      ∙ split3-join b':' source destination (codes "ro") first second in
    rw (e, force_read_only)
      (rw (parts, read_bind) (rw (← was) (rw (read_only_ro, read_empty) refl)))
force_parts text (source ∷ destination ∷ opts_str ∷ rest) q e h =
    let (first, second) = split3_three b':' text source destination opts_str rest e in
    let was : with_options source destination opts_str ≡ q = ground (arith, e, h) in
    let parts = split3-join b':' source destination (join b',' (forced opts_str)) first second in
    rw (e, force_read_only)
      (rw (parts, read_bind) (rw (← was) (rw (forced_options opts_str (codes "rprivate")) refl)))

-- A bind that is forced to be read-only is read as the same source, destination and propagation, and
-- is not writable, whatever its options were and in whatever order.
pub read_bind-force_read_only :
    (text : Str) (q : BindParts)
    → read_bind text ≡ some q
    → read_bind (force_read_only text) ≡ some (record q { rw = false })
read_bind-force_read_only text q h = force_parts text (split3 b':' text) q refl h
