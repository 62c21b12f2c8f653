-- ===== src/Network/Manager/Rollback.antt =====
-- The clean-ups of `Connect` against the steps that pushed them.
use mathlib.Core.Path.{subst}
use kogia.Base.{
  some, ℕ, ◌+◌, ◌≡◌, refl, sym, ap, ◌∙◌, inl, inr, none, List, [], ◌∷◌, Str, codes, str_eq,
  str_eq_iff, trim_prefix, err, Bool-cases, Option-cases, Outcome-cases, arith,
}
use kogia.Network.Types.{Record, EndpointRecord, PortMapping}
use kogia.Network.Dns.{Records, register, deregister, resolve, resolve-register, resolve-deregister}
use kogia.Network.Ipam.Address.{Addr, Prefix}
use kogia.Network.Manager.State.{
  ManagerStore, Kernel, KernelLaws, NewMappings, Manager, NetError, default_network_name,
}
use kogia.Network.Manager.Connect.{
  Cleanup, release_ip, disconnect, remove_mapping, deregister_name, clean, rollback, add_mappings,
  persist, register_name, publish_endpoint, attach,
}

-- No clean-up of the stack touches the DNS records.
abbrev pub KeepsNames : List Cleanup → Type 0
KeepsNames [] = Unit
KeepsNames (release_ip subnet ip ∷ stack) = KeepsNames stack
KeepsNames (disconnect veth ∷ stack) = KeepsNames stack
KeepsNames (remove_mapping pm ip ∷ stack) = KeepsNames stack
KeepsNames (deregister_name n k ∷ stack) = ⊥

pub forget_name :
    (n k j i : Str) (ip : Addr) (d : Records)
    → resolve n k d ≡ none
    → resolve j i (deregister n k (register n k ip d)) ≡ resolve j i d
forget_name n k j i ip d fresh = ground (
  arith,
  resolve-deregister n k (register n k ip d) j i,
  resolve-register n k d j i ip,
  str_eq_iff n j,
  str_eq_iff k i,
  fresh,
)

module _ {S E K : Type 0} (store : ManagerStore S E) (kernel : Kernel K) where
  -- The loop over the mappings leaves the store and the names.
  pub add_mappings-kept :
      (i : ℕ) (pms : List PortMapping) (ip : Addr) (stack : List Cleanup) (m : Manager S K)
      → let added = add_mappings store kernel i pms ip stack m in
        (added.2.dns ≡ m.dns) × (added.2.store ≡ m.store)
  unfolding add_mappings
  add_mappings-kept i [] ip stack m = (refl, refl)
  add_mappings-kept i (pm ∷ pms) ip stack m =
      elim (Option-cases (kernel.add_port_mapping pm ip m.kernel)) [
        | inl failed ↦ rw (failed, add_mappings) (refl, refl)
        | inr (k, added) ↦
            rw (added, add_mappings)
              (add_mappings-kept (i + 1) pms ip (remove_mapping pm ip ∷ stack)
                (record m { kernel = k }))
      ]

module _ {S E K : Type 0} (store : ManagerStore S E) (kernel : Kernel K)
    (kernel_laws : KernelLaws kernel) where
  -- Such a stack works the same with other records, and leaves them.
  rollback-dns :
      (stack : List Cleanup) (m : Manager S K) (d : Records)
      → KeepsNames stack
      → rollback store kernel stack (record m { dns = d })
        ≡ record (rollback store kernel stack m) { dns = d }
  unfolding rollback
  rollback-dns [] m d h = refl
  rollback-dns (release_ip subnet ip ∷ stack) m d h =
      rollback-dns stack (clean store kernel (release_ip subnet ip) m) d h
  rollback-dns (disconnect veth ∷ stack) m d h =
      rollback-dns stack (clean store kernel (disconnect veth) m) d h
  rollback-dns (remove_mapping pm ip ∷ stack) m d h =
      rollback-dns stack (clean store kernel (remove_mapping pm ip) m) d h
  rollback-dns (deregister_name n k ∷ stack) m d h = absurd h

  -- The loop over the mappings is undone by what it pushes, in whatever round it ends.
  pub add_mappings-undone :
      (i : ℕ) (pms : List PortMapping) (ip : Addr) (stack : List Cleanup) (m : Manager S K)
      → KeepsNames stack
      → NewMappings kernel_laws pms ip m.kernel
      → let added = add_mappings store kernel i pms ip stack m in
        (rollback store kernel added.1 added.2 ≡ rollback store kernel stack m) × KeepsNames added.1
  unfolding add_mappings rollback
  add_mappings-undone i [] ip stack m h new = (refl, h)
  add_mappings-undone i (pm ∷ pms) ip stack m h (here, later) =
      elim (Option-cases (kernel.add_port_mapping pm ip m.kernel)) [
        | inl failed ↦ rw (failed, add_mappings) (refl, h)
        | inr (k, added) ↦
            let (undone, keeps) =
              add_mappings-undone (i + 1) pms ip (remove_mapping pm ip ∷ stack)
                (record m { kernel = k }) h (later k added) in
            let back = kernel_laws.remove-add_port_mapping pm ip m.kernel k here added in
            rw (added, add_mappings)
              (
                undone ∙ ap (λ (j : K). rollback store kernel stack (record m { kernel = j })) back,
                keeps,
              )
      ]

  rollback-keeps :
      (stack : List Cleanup) (m : Manager S K)
      → KeepsNames stack
      → (rollback store kernel stack m).dns ≡ m.dns
  rollback-keeps stack m h = ap (λ (w : Manager S K). w.dns) (rollback-dns stack m m.dns h)

  -- `m'` is what a manager `base` was, but for the representation of the DNS records.
  pub record Same (base m' : Manager S K) : Type 0 where
    pub store_same : m'.store ≡ base.store
    pub kernel_same : m'.kernel ≡ base.kernel
    pub names_same : (n j : Str) → resolve n j m'.dns ≡ resolve n j base.dns

  Same-refl : (m m' : Manager S K) → m' ≡ m → Same m m'
  Same-refl m m' e = record {
    store_same = ap (λ (w : Manager S K). w.store) e;
    kernel_same = ap (λ (w : Manager S K). w.kernel) e;
    names_same = λ n j. ap (λ (w : Manager S K). resolve n j w.dns) e;
  }

  persist-undone :
      (ep : EndpointRecord) (stack : List Cleanup) (m m' : Manager S K) (e : NetError E)
      → persist store kernel ep stack m ≡ (err e, m')
      → m' ≡ rollback store kernel stack m
  unfolding persist
  persist-undone ep stack m m' e h = elim (Outcome-cases (store.create_endpoint ep m.store)) [
    | inl (s, ok_s) ↦ absurd (ground (arith, ok_s, h))
    | inr (inl (x, err_x)) ↦ ground (arith, err_x, h)
    | inr (inr p) ↦ absurd (ground (arith, p, h))
  ]

  -- Steps 4 and 5.
  named-undone :
      (rec : Record) (ep : EndpointRecord) (name : Str) (ip : Addr) (stack : List Cleanup)
      (m m' : Manager S K) (e : NetError E)
      → KeepsNames stack
      → resolve rec.id name m.dns ≡ none
      → (let named = register_name store kernel rec name ip stack m in
          persist store kernel ep named.0 named.1 ≡ (err e, m'))
      → Same (rollback store kernel stack m) m'
  unfolding register_name rollback
  named-undone rec ep name ip stack m m' e keeps fresh h =
      elim (Bool-cases (str_eq rec.name default_network_name)) [
        | inl default ↦
            Same-refl (rollback store kernel stack m) m'
              (persist-undone ep stack m m' e (rw default at h))
        | inr own ↦
            let d = deregister rec.id name (register rec.id name ip m.dns) in
            let undone =
              persist-undone ep (deregister_name rec.id name ∷ stack)
                (record m { dns = register rec.id name ip m.dns }) m' e (rw own at h) in
            let back = undone ∙ rollback-dns stack m d keeps in
            record {
              store_same = ap (λ (w : Manager S K). w.store) back;
              kernel_same = ap (λ (w : Manager S K). w.kernel) back;
              names_same = λ n j.
                  ap (λ (w : Manager S K). resolve n j w.dns) back
                  ∙ forget_name rec.id name n j ip m.dns fresh
                  ∙ ap (λ (r : Records). resolve n j r) (sym (rollback-keeps stack m keeps));
            }
      ]

  publish-undone :
      (rec : Record) (ep : EndpointRecord) (ip : Addr) (stack : List Cleanup) (m m' : Manager S K)
      (e : NetError E)
      → KeepsNames stack
      → NewMappings kernel_laws ep.port_mappings ip m.kernel
      → resolve rec.id (trim_prefix ep.container_name (codes "/")) m.dns ≡ none
      → publish_endpoint store kernel rec ep ip stack m ≡ (err e, m')
      → Same (rollback store kernel stack m) m'
  unfolding publish_endpoint
  publish-undone rec ep ip stack m m' e keeps new fresh h =
      let name = trim_prefix ep.container_name (codes "/") in
      let added = add_mappings store kernel 0 ep.port_mappings ip stack m in
      let (undone, keeps') = add_mappings-undone 0 ep.port_mappings ip stack m keeps new in
      let (dns, kept) = add_mappings-kept store kernel 0 ep.port_mappings ip stack m in
      elim (Option-cases added.0) [
        | inr (i, failed) ↦
            Same-refl (rollback store kernel stack m) m' (ground (arith, failed, h, undone))
        | inl all ↦
            subst (λ (w : Manager S K). Same w m') undone
              (named-undone rec ep name ip added.1 added.2 m' e keeps'
                (ap (λ (d : Records). resolve rec.id name d) dns ∙ fresh)
                (rw (all, publish_endpoint) at h))
      ]

  -- None of the mappings is there once the pair is made.
  abbrev pub NewMappingsAfter : Record → Prefix → Addr → List PortMapping → ℕ → K → Type 0
  NewMappingsAfter rec subnet ip pms pid k =
      (veth mac : Str) (k' : K)
      → kernel.connect_container rec.bridge_name pid ip rec.gateway subnet k ≡ some (veth, mac, k')
      → NewMappings kernel_laws pms ip k'

  pub attach-undone :
      (rec : Record) (subnet : Prefix) (ip : Addr) (ep : EndpointRecord) (pid : ℕ)
      (m m' : Manager S K) (e : NetError E)
      → NewMappingsAfter rec subnet ip ep.port_mappings pid m.kernel
      → resolve rec.id (trim_prefix ep.container_name (codes "/")) m.dns ≡ none
      → attach store kernel rec subnet ip ep pid m ≡ (err e, m')
      → Same (clean store kernel (release_ip subnet ip) m) m'
  unfolding attach rollback
  attach-undone rec subnet ip ep pid m m' e new fresh h =
      elim (Option-cases
        (kernel.connect_container rec.bridge_name pid ip rec.gateway subnet m.kernel)) [
          | inl failed ↦
              Same-refl (clean store kernel (release_ip subnet ip) m) m' (ground (arith, failed, h))
          | inr ((veth, mac, k), made) ↦
              let back =
                kernel_laws.disconnect-connect rec.bridge_name pid ip rec.gateway subnet veth mac
                  m.kernel k made in
              subst
                (λ (j : K).
                  Same (clean store kernel (release_ip subnet ip) (record m { kernel = j })) m')
                back
                (publish-undone rec (record ep { mac_address = mac; veth_host = veth }) ip
                  (disconnect veth ∷ release_ip subnet ip ∷ []) (record m { kernel = k }) m' e tt
                  (new veth mac k made) fresh (rw (made, attach) at h))
        ]
