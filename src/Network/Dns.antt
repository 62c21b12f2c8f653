-- ===== src/Network/Dns.antt =====
-- The records of `DNS` in internal/network/dns.go. The listeners, `handleQuery` and the forwarding
-- are not here. A Go map is an association list, whose order stands for the order of a `range`.
use kogia.Base.{
  ◌&&◌, str_eq_iff, str_eq_refl, ◌≢◌, Bool, true, false, Option, none, some, [], ◌∷◌, Str, str_eq,
  if◌then◌else◌, lookup, insert, erase, ◌==◌, ◌≡◌, refl, inl, inr, Bool-cases, Option-cases,
  lookup-insert, lookup-erase, arith,
}
use kogia.Base.Maps.{Dict}
use kogia.Network.Ipam.Address.{Addr}

-- The field `records`: network ID to container name to address.
abbrev pub Records : Type 0
Records = Dict (Dict Addr)

abbrev pub network_records : Option (Dict Addr) → Dict Addr
network_records none = []
network_records (some recs) = recs

-- `Register`
unfoldable pub register : Str → Str → Addr → Records → Records
register network_id name ip d =
    insert network_id (insert name ip (network_records (lookup network_id d))) d

abbrev pub is_empty : Dict Addr → Bool
is_empty [] = true
is_empty (r ∷ recs) = false

-- `Deregister`
unfoldable pub deregister : Str → Str → Records → Records
deregister network_id name d = elim (lookup network_id d) [
  | none ↦ d
  | some recs ↦
      let recs' = erase name recs in
      if is_empty recs' then erase network_id d else insert network_id recs' d
]

-- `DeregisterNetwork`
unfoldable pub deregister_network : Str → Records → Records
deregister_network network_id d = erase network_id d

-- `strings.TrimSuffix(s, ".")`
abbrev pub trim_dot : Str → Str
trim_dot [] = []
trim_dot (c ∷ []) = if c == b'.' then [] else c ∷ []
trim_dot (c ∷ d ∷ s) = c ∷ trim_dot (d ∷ s)

unfoldable pub search : Str → Records → Option Addr
search name [] = none
search name ((network_id, recs) ∷ d) = elim (lookup name recs) [
  | none ↦ search name d
  | some ip ↦ some ip
]

-- `lookupA`; `none` is the zero address.
unfoldable pub lookup_a : Str → Records → Option Addr
lookup_a qname d = search (trim_dot qname) d

-- The address of a name in one network.
abbrev pub resolve : Str → Str → Records → Option Addr
resolve network_id name d = lookup name (network_records (lookup network_id d))

lookup_empty : (recs : Dict Addr) (j : Str) → is_empty recs ≡ true → lookup j recs ≡ none
lookup_empty [] j e = refl
lookup_empty (r ∷ recs) j e = cc

module _ (n k : Str) (d : Records) (m j : Str) where
  -- A registration sets the address of its name in its network and no other.
  pub resolve-register :
      (ip : Addr)
      → resolve m j (register n k ip d)
        ≡ (if str_eq n m && str_eq k j then some ip else resolve m j d)
  unfolding register
  resolve-register ip = ground (
    arith,
    str_eq_iff n m,
    lookup-insert n m (insert k ip (network_records (lookup n d))) d,
    lookup-insert k j ip (network_records (lookup n d)),
  )

  -- Deregistering a name removes its address in its network and no other, also where the network's
  -- records go with the last name.
  pub resolve-deregister :
      resolve m j (deregister n k d) ≡ (if str_eq n m && str_eq k j then none else resolve m j d)
  unfolding deregister
  resolve-deregister = elim (Option-cases (lookup n d)) [
    | inl e ↦ ground (arith, str_eq_iff n m)
    | inr (recs, e) ↦ ground (
      arith,
      str_eq_iff n m,
      lookup-erase n m d,
      lookup-erase k j recs,
      lookup-insert n m (erase k recs) d,
      lookup_empty (erase k recs) j,
    )
  ]

-- No network is left without a record.
abbrev pub IsTidy : Records → Type 0
IsTidy [] = Unit
IsTidy ((n, recs) ∷ d) = (is_empty recs ≡ false) × IsTidy d

insert-IsTidy :
    (n : Str) (recs : Dict Addr) (d : Records)
    → is_empty recs ≡ false
    → IsTidy d
    → IsTidy (insert n recs d)
insert-IsTidy n recs [] e t = (e, tt)
insert-IsTidy n recs ((m, old) ∷ d) e (o, t) = elim (Bool-cases (str_eq m n)) [
  | inl same ↦ rw same (e, t)
  | inr other ↦ rw other (o, insert-IsTidy n recs d e t)
]

erase-IsTidy : (n : Str) (d : Records) → IsTidy d → IsTidy (erase n d)
erase-IsTidy n [] t = tt
erase-IsTidy n ((m, old) ∷ d) (o, t) = elim (Bool-cases (str_eq m n)) [
  | inl same ↦ rw same (erase-IsTidy n d t)
  | inr other ↦ rw other (o, erase-IsTidy n d t)
]

insert_not_empty : (k : Str) (ip : Addr) (recs : Dict Addr) → is_empty (insert k ip recs) ≡ false
insert_not_empty k ip [] = refl
insert_not_empty k ip ((j, old) ∷ recs) = ground arith

pub register-IsTidy : (n k : Str) (ip : Addr) (d : Records) → IsTidy d → IsTidy (register n k ip d)
unfolding register
register-IsTidy n k ip d t =
    insert-IsTidy n (insert k ip (network_records (lookup n d))) d
      (insert_not_empty k ip (network_records (lookup n d))) t

-- A name that is deregistered leaves no network behind without a record, if there was none before.
pub deregister-IsTidy : (n k : Str) (d : Records) → IsTidy d → IsTidy (deregister n k d)
unfolding deregister
deregister-IsTidy n k d t = elim (Option-cases (lookup n d)) [
  | inl e ↦ rw (e, deregister) t
  | inr (recs, e) ↦ elim (Bool-cases (is_empty (erase k recs))) [
    | inl gone ↦ rw (e, gone, deregister) (erase-IsTidy n d t)
    | inr left ↦ rw (e, left, deregister) (insert-IsTidy n (erase k recs) d left t)
  ]
]

-- Without an answer, no network has the name.
search-none : (j : Str) (d : Records) → search j d ≡ none → (m : Str) → resolve m j d ≡ none
unfolding search
search-none j [] e m = refl
search-none j ((n, recs) ∷ d) e m = elim (Option-cases (lookup j recs)) [
  | inl a ↦ let rest = search-none j d (ground (arith, e, a)) m in ground (arith, rest)
  | inr (ip, a) ↦ absurd (ground (arith, e, a))
]

-- A registered name is found, with or without the dot at its end, whatever else is registered.
pub register-found :
    (n k : Str) (ip : Addr) (d : Records) (qname : Str)
    → trim_dot qname ≡ k
    → lookup_a qname (register n k ip d) ≢ none
unfolding lookup_a
register-found n k ip d qname e missed =
    let absent = search-none (trim_dot qname) (register n k ip d) missed n in
    let found = resolve-register n k d n k ip in
    ground (arith, absent, found, e, str_eq_refl n, str_eq_refl k)
