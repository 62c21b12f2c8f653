-- ===== src/Network/Manager/Assign.antt =====
-- The subnets that `autoAssignSubnet` of the network manager gives.
use kogia.Base.{
  ℕ, zero, suc, ◌+◌, ◌*◌, ◌%◌, ◌≤◌, ◌≡◌, refl, ◌≢◌, sym, ap, ◌∙◌, ◌⊎◌, inl, inr, true, false, none,
  some, List, [], ◌∷◌, ◌++◌, Str, str_eq_iff, ok, err, All, Bool-cases, Option-cases, arith,
}
use kogia.Network.Types.{Record}
use kogia.Network.Ipam.Address.{
  Addr, Prefix, IsAddr, IsSubnet, to_u32, to_u32-lt, of_u32-to_u32, of_u32, offset_to_ip,
}
use kogia.Network.Ipam.Allocator.{prefix_string}
use kogia.Network.Manager.State.{ManagerStore, Kernel, no_available_subnets}
use kogia.Network.Manager.Networks.{
  used_subnets, is_used, class_b, class_c, first_free, pick_subnet, auto_assign_subnet,
}

-- The candidates of a loop, in its order.
abbrev candidates : ℕ → ℕ → ℕ → (ℕ → Prefix × Addr) → List (Prefix × Addr)
candidates zero i step candidate = []
candidates (suc n) i step candidate = candidate i ∷ candidates n (i + step) step candidate

abbrev pub IsTaken : List Str → Prefix × Addr → Type 0
IsTaken used p = is_used used (prefix_string p.0) ≡ true

-- The loop gives a candidate that is not used, or all of them are.
first_free_lem :
    (Q : Prefix × Addr → Type 0) (n i step : ℕ) (candidate : ℕ → Prefix × Addr) (used : List Str)
    → All Q (candidates n i step candidate)
    → ((p : Prefix × Addr) × (first_free n i step candidate used ≡ some p)
        × Q p
        × (is_used used (prefix_string p.0) ≡ false))
      ⊎ ((first_free n i step candidate used ≡ none)
          × All (IsTaken used) (candidates n i step candidate))
unfolding first_free
first_free_lem Q zero i step candidate used all = inr (refl, tt)
first_free_lem Q (suc n) i step candidate used (here, all) =
    elim (Bool-cases (is_used used (prefix_string (candidate i).0))) [
      | inr free ↦ inl (candidate i, rw (free, first_free) refl, here, free)
      | inl taken ↦ elim (first_free_lem Q n (i + step) step candidate used all) [
        | inl (p, found, good, free) ↦ inl (p, rw (taken, first_free) found, good, free)
        | inr (full, rest) ↦ inr (rw (taken, first_free) full, (taken, rest))
      ]
    ]

-- A masked subnet with its first address as the gateway.
abbrev pub IsFitting : Prefix × Addr → Type 0
IsFitting p = IsSubnet p.0 × (p.1 ≡ offset_to_ip p.0 1)

next_address :
    (p : Prefix) (a : Addr) → IsAddr a → to_u32 a ≡ to_u32 p.addr + 1 → a ≡ offset_to_ip p 1
unfolding offset_to_ip
next_address p a valid e =
    sym (of_u32-to_u32 a valid) ∙ ap of_u32 (omega (arith, e, to_u32-lt a valid))

class_b_fits : (n i : ℕ) → i + n ≤ 256 → All IsFitting (candidates n i 1 class_b)
unfolding to_u32
class_b_fits zero i le = tt
class_b_fits (suc n) i le = (
  (
    record { addr_valid = omega arith; length_valid = omega arith; masked = omega arith },
    next_address (class_b i).0 (class_b i).1 (omega arith) (omega arith),
  ),
  class_b_fits n (i + 1) (omega arith),
)

class_c_fits : (n i : ℕ) → i + 16 * n ≤ 256 → i % 16 ≡ 0 → All IsFitting (candidates n i 16 class_c)
unfolding to_u32
class_c_fits zero i le even = tt
class_c_fits (suc n) i le even = (
  (
    record { addr_valid = omega arith; length_valid = omega arith; masked = omega arith },
    next_address (class_c i).0 (class_c i).1 (omega arith) (omega arith),
  ),
  class_c_fits n (i + 16) (omega arith) (omega arith),
)

-- The subnets that `autoAssignSubnet` chooses from: 172.21.0.0/16 to 172.31.0.0/16, and then
-- 192.168.0.0/20 to 192.168.240.0/20.
abbrev pub pool : List (Prefix × Addr)
pool = candidates 11 21 1 class_b ++ candidates 16 0 16 class_c

All-append : {A : Type 0} (P : A → Type 0) (xs ys : List A) → All P xs → All P ys → All P (xs ++ ys)
All-append P [] ys h k = k
All-append P (x ∷ xs) ys h k = (h.0, All-append P xs ys h.1 k)

-- A subnet that is not used, or all of the pool is.
pick_subnet_lem :
    (used : List Str)
    → ((p : Prefix × Addr) × (pick_subnet used ≡ some p)
        × IsFitting p
        × (is_used used (prefix_string p.0) ≡ false))
      ⊎ ((pick_subnet used ≡ none) × All (IsTaken used) pool)
unfolding pick_subnet
pick_subnet_lem used =
    elim (first_free_lem IsFitting 11 21 1 class_b used (class_b_fits 11 21 (omega arith))) [
      | inl (p, found, good, free) ↦ inl (p, rw (found, pick_subnet) refl, good, free)
      | inr (full, all) ↦
          elim (first_free_lem IsFitting 16 0 16 class_c used
            (class_c_fits 16 0 (omega arith) (omega arith))) [
              | inl (p, found, good, free) ↦ inl (p, rw (full, pick_subnet) found, good, free)
              | inr (none_left, all') ↦ inr (
                rw (full, pick_subnet) none_left,
                All-append (IsTaken used) (candidates 11 21 1 class_b) (candidates 16 0 16 class_c)
                    all all',
              )
            ]
    ]

-- The network has another subnet, as it is written, or none.
abbrev pub HasOther : Str → Record → Type 0
HasOther subnet rec = (q : Prefix) → rec.subnet ≡ some q → prefix_string q ≢ subnet

not_used :
    (subnet : Str) (recs : List Record)
    → is_used (used_subnets recs) subnet ≡ false
    → All (HasOther subnet) recs
unfolding used_subnets is_used
not_used subnet [] h = tt
not_used subnet (rec ∷ recs) h = elim (Option-cases rec.subnet) [
  | inl bare ↦ (λ q e. absurd (cc (bare, e)), not_used subnet recs (ground (arith, bare, h)))
  | inr (p, has) ↦ (
    λ q e same. absurd (ground (arith, has, h, e, same, str_eq_iff (prefix_string p) subnet)),
    not_used subnet recs (ground (arith, has, h)),
  )
]

module _ {S E K : Type 0} (store : ManagerStore S E) (kernel : Kernel K) where
  -- With the networks listed, `autoAssignSubnet` returns a masked subnet with its first address as
  -- the gateway, which no network has, or reports that there is none: then each of the 27 subnets of
  -- its pool is the subnet of a network.
  pub auto_assign_subnet-Fresh :
      (s : S) (recs : List Record)
      → store.list_networks s ≡ ok recs
      → ((subnet : Prefix) × (gateway : Addr) × (auto_assign_subnet store kernel s
            ≡ ok (subnet, gateway))
          × IsSubnet subnet
          × (gateway ≡ offset_to_ip subnet 1)
          × All (HasOther (prefix_string subnet)) recs)
        ⊎ ((auto_assign_subnet store kernel s ≡ err no_available_subnets)
            × All (IsTaken (used_subnets recs)) pool)
  unfolding auto_assign_subnet
  auto_assign_subnet-Fresh s recs listed = elim (pick_subnet_lem (used_subnets recs)) [
    | inl ((subnet, gateway), picked, (masked, first), free) ↦ inl (
      subnet,
      gateway,
      rw (listed, auto_assign_subnet) (rw picked refl),
      masked,
      first,
      not_used (prefix_string subnet) recs free,
    )
    | inr (full, all) ↦ inr (rw (listed, auto_assign_subnet) (rw full refl), all)
  ]
