-- ===== src/Peerstore/Known.antt =====
-- What the store knows after a peer was added.
use c_libp2p.Base.{ℕ, ◌≡◌, ◌≢◌, refl, sym, ap, ◌∙◌, List, [], ◌∷◌, ◌++◌, Option, none, some, length}
use c_libp2p.Base.{Bool, true, false, ltb, ◌==◌, ◌||◌, if◌then◌else◌, arith, Bool-cases, inl, inr}
use c_libp2p.Base.{◌⊎◌, Option-cases, All}
use c_libp2p.Base.{if_true, if_false}
use c_libp2p.Peerstore.{Addresses, Lawful, Peer, is_id, Store, find, get_peer, modify, Incoming}
use c_libp2p.Peerstore.{found, copies, update_addresses, updated, add_peer, peer_copy}
use c_libp2p.Peerstore.Entries.{is_id_self, is_id-other, id-find, find-append_new, find-modify}
use c_libp2p.Peerstore.Entries.{find-modify_other}

pub id_test : (id : List ℕ) → id ≢ [] → (length id == 0) ≡ false
id_test [] ne = absurd (ne refl)
id_test (b ∷ id) ne = ground arith

length_test : (id : List ℕ) → id ≢ [] → ltb 0 (length id) ≡ true
length_test [] ne = absurd (ne refl)
length_test (b ∷ id) ne = ground arith

pub list_cases : (id : List ℕ) → (id ≡ []) ⊎ (id ≢ [])
list_cases [] = inl refl
list_cases (b ∷ id) = inr (λ e. cc)

either_way : (b : Bool) → b || true ≡ true
either_way true = refl
either_way false = refl

module _ (l : Addresses) where
  open l use {Address, same, copy}

  pub get_peer_lem : (id : List ℕ) (ps : Store l) → id ≢ [] → get_peer l id ps ≡ find l id ps
  unfolding get_peer
  get_peer_lem id ps ne = rw (id_test id ne) refl

  abbrev outcome : Incoming l → Store l → Option (Peer Address) → Bool × Store l
  outcome p ps o = elim o [
    | some e ↦ (true, modify l p.id (updated l p) ps)
    | none ↦ if ltb 0 (length p.id) then (true, ps ++ (peer_copy l p ∷ [])) else (false, ps)
  ]

  -- The three ways that an addition goes.
  pub add_peer_old :
      (p : Incoming l) (ps : Store l) (e : Peer Address)
      → p.id ≢ []
      → find l p.id ps ≡ some e
      → add_peer l p ps ≡ (true, modify l p.id (updated l p) ps)
  unfolding add_peer
  add_peer_old p ps e ne h = ap (outcome p ps) (get_peer_lem p.id ps ne ∙ h)

  pub add_peer_new :
      (p : Incoming l) (ps : Store l)
      → p.id ≢ []
      → find l p.id ps ≡ none
      → add_peer l p ps ≡ (true, ps ++ (peer_copy l p ∷ []))
  unfolding add_peer
  add_peer_new p ps ne h =
      ap (outcome p ps) (get_peer_lem p.id ps ne ∙ h)
      ∙ if_true (ltb 0 (length p.id)) _ _ (length_test p.id ne)

  pub add_peer_without_id :
      (p : Incoming l) (ps : Store l) → p.id ≡ [] → add_peer l p ps ≡ (false, ps)
  unfolding add_peer get_peer
  add_peer_without_id p ps none_there = rw none_there refl

  -- An item of a list that a caller brings is NULL, or an address that `addrs` has.
  abbrev pub IsKnown : List Address → Option Address → Type 0
  IsKnown addrs none = Unit
  IsKnown addrs (some a) = found l a addrs ≡ true

  found-update_addresses :
      (incoming : List (Option Address)) (existing : List Address) (a : Address)
      → found l a existing ≡ true
      → found l a (update_addresses l incoming existing) ≡ true
  found-update_addresses [] existing a h = h
  found-update_addresses (none ∷ incoming) existing a h =
      found-update_addresses incoming existing a h
  found-update_addresses (some b ∷ incoming) existing a h =
      found-update_addresses incoming (if found l b existing then existing else copy b ∷ existing) a
        (elim (Bool-cases (found l b existing)) [
          | inl old ↦ rw old h
          | inr new ↦ rw (new, h) (either_way (same a (copy b)))
        ])

module _ (l : Addresses) (law : Lawful l) where
  open l use {Address, same, copy}
  open law use {same-copy}

  update_addresses-All :
      (incoming : List (Option Address)) (existing : List Address)
      → All (IsKnown l (update_addresses l incoming existing)) incoming
  update_addresses-All [] existing = tt
  update_addresses-All (none ∷ incoming) existing = (tt, update_addresses-All incoming existing)
  update_addresses-All (some a ∷ incoming) existing =
      let longer : List Address = if found l a existing then existing else copy a ∷ existing in
      let there : found l a longer ≡ true = elim (Bool-cases (found l a existing)) [
        | inl old ↦ rw old old
        | inr new ↦ rw new (rw (same-copy a) refl)
      ] in
      (found-update_addresses l incoming longer a there, update_addresses-All incoming longer)

  All-IsKnown :
      (items : List (Option Address)) (a : Address) (addrs : List Address)
      → All (IsKnown l addrs) items
      → All (IsKnown l (a ∷ addrs)) items
  All-IsKnown [] a addrs h = tt
  All-IsKnown (none ∷ items) a addrs (u, h) = (tt, All-IsKnown items a addrs h)
  All-IsKnown (some b ∷ items) a addrs (there, h) =
      (rw there (either_way (same b a)), All-IsKnown items a addrs h)

  copies-All : (items : List (Option Address)) → All (IsKnown l (copies l items)) items
  copies-All [] = tt
  copies-All (none ∷ items) = (tt, copies-All items)
  copies-All (some a ∷ items) =
      (rw (same-copy a) refl, All-IsKnown items (copy a) (copies l items) (copies-All items))

  -- A peer with an id that was added is found by it, whether or not the store had the id before;
  -- and each address that came with it is among the addresses of the peer that is found.
  pub get_peer-add_peer :
      (p : Incoming l) (ps : Store l)
      → p.id ≢ []
      → ((add_peer l p ps).0 ≡ true)
        × ((q : Peer Address) × (get_peer l p.id (add_peer l p ps).1 ≡ some q)
            × (q.id ≡ p.id)
            × All (IsKnown l q.addrs) p.addrs)
  get_peer-add_peer p ps ne = elim (Option-cases (find l p.id ps)) [
    | inl new ↦
        let out = add_peer_new l p ps ne new in
        (
          ap (λ o. o.0) out,
          (
            peer_copy l p,
            get_peer_lem l p.id (add_peer l p ps).1 ne
                ∙ ap (λ o. find l p.id o.1) out
                ∙ find-append_new l p.id ps (peer_copy l p ∷ []) new
                ∙ if_true (is_id p.id p.id) _ _ (is_id_self p.id),
            refl,
            copies-All p.addrs,
          ),
        )
    | inr (e, old) ↦
        let out = add_peer_old l p ps e ne old in
        (
          ap (λ o. o.0) out,
          (
            updated l p e,
            get_peer_lem l p.id (add_peer l p ps).1 ne
                ∙ ap (λ o. find l p.id o.1) out
                ∙ find-modify l p.id (updated l p) ps e (λ q. refl) old,
            sym (id-find l p.id ps e old),
            update_addresses-All p.addrs e.addrs,
          ),
        )
  ]

module _ (l : Addresses) where
  open l use {Address}

  find-add_peer_other :
      (p : Incoming l) (ps : Store l) (id : List ℕ)
      → p.id ≢ []
      → id ≢ p.id
      → find l id (add_peer l p ps).1 ≡ find l id ps
  find-add_peer_other p ps id some_id ne = elim (Option-cases (find l p.id ps)) [
    | inr (e, old) ↦
        ap (λ o. find l id o.1) (add_peer_old l p ps e some_id old)
        ∙ find-modify_other l p.id id (updated l p) ps (λ q. refl) ne
    | inl new ↦ ap (λ o. find l id o.1) (add_peer_new l p ps some_id new) ∙ past ps
  ]
    where
      past : (qs : Store l) → find l id (qs ++ (peer_copy l p ∷ [])) ≡ find l id qs
      past [] = if_false (is_id id p.id) _ _ (is_id-other id p.id ne)
      past (q ∷ qs) = ap (λ o. if is_id id q.id then some q else o) (past qs)

  -- The peers with other ids are left as they are.
  pub get_peer-add_peer_other :
      (p : Incoming l) (ps : Store l) (id : List ℕ)
      → id ≢ p.id
      → get_peer l id (add_peer l p ps).1 ≡ get_peer l id ps
  unfolding get_peer
  get_peer-add_peer_other p ps id ne = elim (list_cases p.id) [
    | inl none_there ↦ ap (λ o. get_peer l id o.1) (add_peer_without_id l p ps none_there)
    | inr some_id ↦
        ap (λ o. if length id == 0 then none else o) (find-add_peer_other p ps id some_id ne)
  ]
