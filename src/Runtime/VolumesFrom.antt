-- ===== src/Runtime/VolumesFrom.antt =====
-- `forceReadOnly` and `resolveVolumesFrom` of internal/runtime/mounts.go.
use kogia.Base.{
  Bool, true, false, ◌||◌, List, [], ◌∷◌, ◌++◌, Str, codes, str_eq, cut, if◌then◌else◌, Outcome, ok,
  err, panic,
}
use kogia.Runtime.MountTypes.{MountError, container_failed}
use kogia.Base.Split.{split, split3, join}

-- The loop of `forceReadOnly`: the options with "rw" replaced, and whether one of them is "ro".
unfoldable pub replace_rw : List Str → List Str × Bool
replace_rw [] = ([], false)
replace_rw (opt ∷ opts) =
    let rest = replace_rw opts in
    if str_eq opt (codes "rw")
    then (codes "ro" ∷ rest.0, true)
    else (opt ∷ rest.0, str_eq opt (codes "ro") || rest.1)

-- `forceReadOnly`
unfoldable pub force_read_only : Str → Str
force_read_only text = elim (split3 b':' text) [
  | [] ↦ text
  | source ∷ [] ↦ text
  | source ∷ destination ∷ [] ↦ text ++ codes ":ro"
  | source ∷ destination ∷ opts_str ∷ rest ↦
      let replaced = replace_rw (split b',' opts_str) in
      source
      ++ (codes ":"
          ++ (destination
              ++ (codes ":"
                  ++ join b',' (if replaced.1 then replaced.0 else replaced.0 ++ codes "ro" ∷ []))))
]

abbrev pub copy_binds : Bool → List Str → List Str
copy_binds read_only [] = []
copy_binds read_only (text ∷ binds) =
    (if read_only then force_read_only text else text) ∷ copy_binds read_only binds

-- `resolveVolumesFrom`: the binds of a container, none where it has no host configuration, come
-- from `get_binds`.
unfoldable pub resolve_volumes_from :
    {E : Type 0}
    → (Str → Outcome E (List Str))
    → List Str
    → List Str
    → Outcome (MountError E) (List Str)
resolve_volumes_from get_binds [] extra = ok extra
resolve_volumes_from get_binds (vf ∷ vfs) extra =
    let (name, mode_str, found) = cut vf b':' in
    elim (get_binds name) [
      | err e ↦ err (container_failed e)
      | panic ↦ panic
      | ok binds ↦
          resolve_volumes_from get_binds vfs
            (extra ++ copy_binds (str_eq mode_str (codes "ro")) binds)
    ]
