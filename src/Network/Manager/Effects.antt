-- ===== src/Network/Manager/Effects.antt =====
-- What `CreateNetwork` and `RemoveNetwork` of the manager leave behind.
use kogia.Base.{
  ◌≡◌, ap, ◌∙◌, sym, inl, inr, false, none, some, [], ◌∷◌, Str, str_eq, if◌then◌else◌, lookup-erase,
  Outcome, ok, err, Bool-cases, Option-cases, Outcome-cases, arith,
}
use kogia.Network.Types.{Record}
use kogia.Network.Dns.{Records, deregister_network, resolve}
use kogia.Network.Ipam.Address.{Addr, Prefix}
use kogia.Network.Manager.State.{ManagerStore, Kernel, KernelLaws, Manager, NetError, driver_bridge}
use kogia.Network.Manager.Networks.{
  RandomId, or_bridge, NetworkConfig, new_record, choose_subnet, persist_network, build_network,
  create_network, release_bitmap, tear_down, is_predefined, remove_found, remove_network,
}

module _ {S E K : Type 0} (store : ManagerStore S E) (kernel : Kernel K)
    (kernel_laws : KernelLaws kernel) where
  persist_network-undone :
      (rec : Record) (subnet : Prefix) (m m' : Manager S K) (k k' : K) (e : NetError E)
      → kernel_laws.has_bridge rec.bridge_name m.kernel ≡ false
      → kernel_laws.has_masquerade subnet m.kernel ≡ false
      → kernel.create_bridge rec.bridge_name rec.gateway subnet m.kernel ≡ some k
      → kernel.add_masquerade subnet k ≡ some k'
      → persist_network store kernel rec subnet (record m { kernel = k' }) ≡ (err e, m')
      → m' ≡ m
  unfolding persist_network
  persist_network-undone rec subnet m m' k k' e no_bridge no_rule made added h =
      elim (Outcome-cases (store.create_network rec m.store)) [
        | inl (s, stored) ↦ absurd (ground (arith, stored, h))
        | inr (inr p) ↦ absurd (ground (arith, p, h))
        | inr (inl (x, failed)) ↦
            let back =
              ap (kernel.delete_bridge rec.bridge_name) (
                kernel_laws.remove-add_masquerade subnet k k'
                  (kernel_laws.masquerade-create rec.bridge_name rec.gateway subnet subnet m.kernel
                      k made
                    ∙ no_rule)
                  added)
              ∙ kernel_laws.delete-create rec.bridge_name rec.gateway subnet m.kernel k no_bridge
                  made in
            ap (λ (r : Outcome (NetError E) Str × Manager S K). r.1)
              (sym (rw (failed, persist_network) at h))
            ∙ ap (λ (j : K). record m { kernel = j }) back
      ]

  build_network-undone :
      (rec : Record) (subnet : Prefix) (m m' : Manager S K) (e : NetError E)
      → rec.internal ≡ false
      → kernel_laws.has_bridge rec.bridge_name m.kernel ≡ false
      → kernel_laws.has_masquerade subnet m.kernel ≡ false
      → build_network store kernel rec subnet m ≡ (err e, m')
      → m' ≡ m
  unfolding build_network
  build_network-undone rec subnet m m' e outside no_bridge no_rule h =
      elim (Option-cases (kernel.create_bridge rec.bridge_name rec.gateway subnet m.kernel)) [
        | inl failed ↦ ground (arith, failed, h)
        | inr (k, made) ↦ elim (Option-cases (kernel.add_masquerade subnet k)) [
          | inl failed ↦
              ap (λ (r : Outcome (NetError E) Str × Manager S K). r.1)
                (sym (rw (failed) at (rw (outside) at (rw (made, build_network) at h))))
              ∙ ap (λ (j : K). record m { kernel = j })
                  (kernel_laws.delete-create rec.bridge_name rec.gateway subnet m.kernel k no_bridge
                    made)
          | inr (k', added) ↦
              persist_network-undone rec subnet m m' k k' e no_bridge no_rule made added
                (rw (added) at (rw (outside) at (rw (made, build_network) at h)))
        ]
      ]

  -- A `CreateNetwork` that returns an error leaves the store, the names and the kernel's links and
  -- rules as they were, if the network is not internal, no bridge has its name and no masquerade rule
  -- its subnet before, and the kernel takes a new bridge and a new rule away again.
  pub create_network-Undone :
      (random : RandomId) (cfg : NetworkConfig) (m m' : Manager S K) (e : NetError E)
      → cfg.internal ≡ false
      → ((id : Str) (subnet : Prefix) (gateway : Addr)
          → random ≡ some id
          → choose_subnet store kernel cfg m.store ≡ ok (subnet, gateway)
          → (kernel_laws.has_bridge (new_record cfg id subnet gateway).bridge_name m.kernel ≡ false)
            × (kernel_laws.has_masquerade subnet m.kernel ≡ false))
      → create_network store kernel random cfg m ≡ (err e, m')
      → m' ≡ m
  unfolding create_network
  create_network-Undone random cfg m m' e outside new h =
      elim (Bool-cases (str_eq (or_bridge cfg.driver) driver_bridge)) [
        | inr other ↦ ground (arith, other, h)
        | inl bridge ↦ elim (Outcome-cases (choose_subnet store kernel cfg m.store)) [
          | inr (inl (x, failed)) ↦ ground (arith, bridge, failed, h)
          | inr (inr p) ↦ absurd (ground (arith, bridge, p, h))
          | inl ((subnet, gateway), chosen) ↦ elim (Option-cases random) [
            | inl bad ↦ ground (arith, bridge, chosen, bad, h)
            | inr (id, given) ↦
                let (no_bridge, no_rule) = new id subnet gateway given chosen in
                build_network-undone (new_record cfg id subnet gateway) subnet m m' e outside
                  no_bridge no_rule (ground (arith, bridge, chosen, given, h))
          ]
        ]
      ]

-- No name of a network is left, and those of the other networks stay.
resolve-deregister_network :
    (id n j : Str) (d : Records)
    → resolve n j (deregister_network id d) ≡ (if str_eq id n then none else resolve n j d)
unfolding deregister_network
resolve-deregister_network id n j d = ground (arith, lookup-erase id n d)

module _ {S E K : Type 0} (store : ManagerStore S E) (kernel : Kernel K) where
  -- A network that was removed was not a predefined one and had no endpoint; its record was
  -- deleted after its subnet was released, and its names and no others are gone.
  remove_network-Removed :
      (key : Str) (m m' : Manager S K) (rec : Record)
      → store.get_network key m.store ≡ ok rec
      → remove_network store kernel key m ≡ (ok tt, m')
      → (is_predefined store kernel rec ≡ false)
        × (store.list_endpoints rec.id m.store ≡ ok [])
        × (store.delete_network rec.id rec.name (release_bitmap store kernel rec.subnet m.store)
            ≡ ok m'.store)
        × ((n j : Str) → resolve n j m'.dns ≡ (if str_eq rec.id n then none else resolve n j m.dns))
  unfolding remove_network remove_found tear_down
  remove_network-Removed key m m' rec found h = elim (Bool-cases (is_predefined store kernel rec)) [
    | inl predefined ↦ absurd (ground (arith, found, predefined, h))
    | inr own ↦ elim (Outcome-cases (store.list_endpoints rec.id m.store)) [
      | inr (inl (x, failed)) ↦ absurd (ground (arith, found, own, failed, h))
      | inr (inr p) ↦ absurd (ground (arith, found, own, p, h))
      | inl (ep ∷ eps, joined) ↦ absurd (ground (arith, found, own, joined, h))
      | inl ([], free) ↦
          let bare = release_bitmap store kernel rec.subnet m.store in
          elim (Outcome-cases (store.delete_network rec.id rec.name bare)) [
            | inr (inl (x, failed)) ↦ absurd (ground (arith, found, own, free, failed, h))
            | inr (inr p) ↦ absurd (ground (arith, found, own, free, p, h))
            | inl (s, deleted) ↦ (
              own,
              free,
              ground (arith, found, own, free, deleted, h),
              λ n j. ground (
                arith,
                found,
                own,
                free,
                deleted,
                h,
                resolve-deregister_network rec.id n j m.dns,
              ),
            )
          ]
    ]
  ]
