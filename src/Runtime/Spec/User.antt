-- ===== src/Runtime/Spec/User.antt =====
-- The user of the spec: `buildUser`, `parseUser`, `lookupUser` and `lookupGroup`.
use kogia.Base.{
  ℕ, zero, suc, Bool, ◌||◌, Option, none, some, List, [], ◌∷◌, Str, codes, str_eq, cut, has_prefix,
  if◌then◌else◌, Outcome, ok, err, ◌>>=◌,
}
use kogia.Base.Split.{split}
use kogia.Base.Ascii.{trim_space}
use kogia.Base.Numbers.{parse_uint}
use kogia.Runtime.Spec.Types.{
  SpecConfig, SpecOpts, RootFiles, SpecError, user_not_read, user_not_found, invalid_passwd,
  group_not_read, group_not_found, invalid_group, User,
}
use kogia.Runtime.Spec.Process.{or_else}

-- `strings.SplitN(s, sep, n)`
unfoldable pub split_n : ℕ → ℕ → Str → List Str
split_n zero sep s = []
split_n (suc zero) sep s = s ∷ []
split_n (suc (suc n)) sep s =
    let rest = split_n (suc n) sep (cut s sep).1 in
    if (cut s sep).2 then (cut s sep).0 ∷ rest else s ∷ []

-- An empty line or a comment.
abbrev pub is_skipped : Str → Bool
is_skipped line = str_eq line [] || has_prefix line (codes "#")

abbrev read_ids : Str → Str → Outcome SpecError User
read_ids uid gid = elim (parse_uint 32 uid) [
  | none ↦ err invalid_passwd
  | some u ↦ elim (parse_uint 32 gid) [
    | none ↦ err invalid_passwd
    | some g ↦ ok (record { uid = u; gid = g })
  ]
]

-- The entry of a line of /etc/passwd, if it is the user's.
abbrev pub passwd_entry : Str → List Str → Option (Outcome SpecError User)
passwd_entry username (name ∷ password ∷ uid ∷ gid ∷ fields) =
    if str_eq name username then some (read_ids uid gid) else none
passwd_entry username fields = none

unfoldable pub find_user : Str → List Str → Outcome SpecError User
find_user username [] = err user_not_found
find_user username (l ∷ lines) =
    let rest = find_user username lines in
    let line = trim_space l in
    if is_skipped line
    then rest
    else elim (passwd_entry username (split_n 7 b':' line)) [ none ↦ rest | some found ↦ found ]

unfoldable pub lookup_user : RootFiles → Str → Outcome SpecError User
lookup_user files username = elim files.passwd [
  | none ↦ err user_not_read
  | some text ↦ find_user username (split b'\n' text)
]

abbrev read_gid : Str → Outcome SpecError ℕ
read_gid gid = elim (parse_uint 32 gid) [ none ↦ err invalid_group | some g ↦ ok g ]

abbrev pub group_entry : Str → List Str → Option (Outcome SpecError ℕ)
group_entry groupname (name ∷ password ∷ gid ∷ fields) =
    if str_eq name groupname then some (read_gid gid) else none
group_entry groupname fields = none

unfoldable pub find_group : Str → List Str → Outcome SpecError ℕ
find_group groupname [] = err group_not_found
find_group groupname (l ∷ lines) =
    let rest = find_group groupname lines in
    let line = trim_space l in
    if is_skipped line
    then rest
    else elim (group_entry groupname (split_n 4 b':' line)) [ none ↦ rest | some found ↦ found ]

unfoldable pub lookup_group : RootFiles → Str → Outcome SpecError ℕ
lookup_group files groupname = elim files.group [
  | none ↦ err group_not_read
  | some text ↦ find_group groupname (split b'\n' text)
]

-- The group that was asked for, as a number or by its name; `default` where none was.
unfoldable pub resolve_gid : RootFiles → Str → ℕ → Outcome SpecError ℕ
resolve_gid files [] default = ok default
resolve_gid files (c ∷ gid) default = elim (parse_uint 32 (c ∷ gid)) [
  | some g ↦ ok g
  | none ↦ lookup_group files (c ∷ gid)
]

abbrev with_gid : ℕ → Outcome SpecError ℕ → Outcome SpecError User
with_gid uid gid = gid >>= λ g. ok (record { uid = uid; gid = g })

-- The primary group of a user of /etc/passwd is the default; that of a number is 0.
unfoldable pub parse_user : RootFiles → Str → Outcome SpecError User
parse_user files text =
    let (uid_text, gid_text, found) = cut text b':' in
    elim (parse_uint 32 uid_text) [
      | some uid ↦ with_gid uid (resolve_gid files gid_text 0)
      | none ↦ lookup_user files uid_text >>= λ entry.
          with_gid entry.uid (resolve_gid files gid_text entry.gid)
    ]

abbrev pub user_of : Option SpecConfig → Str
user_of none = []
user_of (some cfg) = cfg.user

abbrev user_or_root : RootFiles → Str → Outcome SpecError User
user_or_root files [] = ok (record { uid = 0; gid = 0 })
user_or_root files (c ∷ text) = parse_user files (c ∷ text)

unfoldable pub build_user : RootFiles → SpecOpts → Outcome SpecError User
build_user files opts = user_or_root files (or_else (user_of opts.config) opts.image_user)
