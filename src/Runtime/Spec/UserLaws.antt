-- ===== src/Runtime/Spec/UserLaws.antt =====
-- Users that are given as numbers.
use kogia.Base.{
  ℕ, ◌<◌, ◌^◌, ◌≡◌, ◌≢◌, refl, inr, true, some, [], ◌∷◌, ◌++◌, Str, cut, format_uint, ok, arith,
}
use kogia.Base.Split.{cut-append}
use kogia.Base.Numbers.{
  parse_uint, parse_uint-format_uint, format_uint-Lacks, format_uint-not_empty,
}
use kogia.Runtime.Spec.Types.{RootFiles}
use kogia.Runtime.Spec.User.{resolve_gid, parse_user}

resolve_gid_lem :
    (files : RootFiles) (text : Str) (default g : ℕ)
    → text ≢ []
    → parse_uint 32 text ≡ some g
    → resolve_gid files text default ≡ ok g
unfolding resolve_gid
resolve_gid_lem files [] default g full e = absurd (full refl)
resolve_gid_lem files (c ∷ text) default g full e = ground (arith, e)

parse_user_lem :
    (files : RootFiles) (text uid_text gid_text : Str) (uid gid : ℕ)
    → cut text b':' ≡ (uid_text, gid_text, true)
    → parse_uint 32 uid_text ≡ some uid
    → resolve_gid files gid_text 0 ≡ ok gid
    → parse_user files text ≡ ok (record { uid = uid; gid = gid })
unfolding parse_user
parse_user_lem files text uid_text gid_text uid gid parts user group =
    ground (arith, parts, user, group)

-- "uid:gid" with two numbers of 32 bits is that user and that group, whatever is in the files of the
-- rootfs.
pub parse_user-format_uint :
    (files : RootFiles) (uid gid : ℕ)
    → uid < 2 ^ 32
    → gid < 2 ^ 32
    → parse_user files (format_uint uid ++ b':' ∷ format_uint gid)
      ≡ ok (record { uid = uid; gid = gid })
parse_user-format_uint files uid gid u g =
    parse_user_lem files (format_uint uid ++ b':' ∷ format_uint gid) (format_uint uid)
      (format_uint gid) uid gid
      (cut-append b':' (format_uint uid) (format_uint gid)
        (format_uint-Lacks b':' uid (inr (omega arith))))
      (parse_uint-format_uint 32 uid (omega arith) u)
      (resolve_gid_lem files (format_uint gid) 0 gid (format_uint-not_empty gid)
        (parse_uint-format_uint 32 gid (omega arith) g))
