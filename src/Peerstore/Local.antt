-- ===== src/Peerstore/Local.antt =====
-- The local peer, and the functions that look a peer up and add it where it is missing.
use c_libp2p.Base.{ℕ, ◌≡◌, ◌≢◌, refl, sym, ap, ◌∙◌, List, [], ◌∷◌, ◌++◌, Option, none, some, length}
use c_libp2p.Base.{true, ◌==◌, if◌then◌else◌, Bool-cases, inl, inr, Option-cases}
use c_libp2p.Base.{subst}
use c_libp2p.Base.{if_true, if_false}
use c_libp2p.Peerstore.{Addresses, Lawful, Peer, is_id, Store, find, get_peer, modify, Incoming}
use c_libp2p.Peerstore.{updated, add_peer, peer_copy, peerstore_new, get_local_peer}
use c_libp2p.Peerstore.{get_or_add_peer, get_or_add_peer_by_id, peer_new}
use c_libp2p.Peerstore.Entries.{id-find}
use c_libp2p.Peerstore.Known.{add_peer_old, add_peer_new, add_peer_without_id, get_peer-add_peer}
use c_libp2p.Peerstore.Known.{list_cases, get_peer_lem, id_test}

module _ (l : Addresses) where
  open l use {Address}

  -- peers added one after the other
  abbrev pub add_all : List (Incoming l) → Store l → Store l
  add_all [] ps = ps
  add_all (p ∷ more) ps = add_all more (add_peer l p ps).1

  -- The store is not empty, and its first peer has this id.
  abbrev pub StartsWith : List ℕ → Store l → Type 0
  StartsWith id ps = (y : Peer Address) × (get_local_peer l ps ≡ some y) × (y.id ≡ id)

  modify-StartsWith :
      (id key : List ℕ) (p : Incoming l) (ps : Store l)
      → StartsWith id ps
      → StartsWith id (modify l key (updated l p) ps)
  modify-StartsWith id key p [] (y, h, e) = absurd (cc)
  modify-StartsWith id key p (x ∷ ps) (y, h, e) =
      let x_id : x.id ≡ id =
        ap (λ (o : Option (Peer Address)). elim o [ none ↦ x.id | some x ↦ x.id ]) h ∙ e in
      elim (Bool-cases (is_id key x.id)) [
        | inl this ↦ rw this (updated l p x, refl, x_id)
        | inr other ↦ rw other (x, refl, x_id)
      ]

  append-StartsWith : (id : List ℕ) (ps qs : Store l) → StartsWith id ps → StartsWith id (ps ++ qs)
  append-StartsWith id [] qs (y, h, e) = absurd (cc)
  append-StartsWith id (x ∷ ps) qs h = h

  add_peer-StartsWith :
      (id : List ℕ) (p : Incoming l) (ps : Store l)
      → StartsWith id ps
      → StartsWith id (add_peer l p ps).1
  add_peer-StartsWith id p ps h = elim (list_cases p.id) [
    | inl no_id ↦ subst (λ o. StartsWith id o.1) (sym (add_peer_without_id l p ps no_id)) h
    | inr some_id ↦ elim (Option-cases (find l p.id ps)) [
      | inl new ↦
          subst (λ o. StartsWith id o.1) (sym (add_peer_new l p ps some_id new))
            (append-StartsWith id ps (peer_copy l p ∷ []) h)
      | inr (e, old) ↦
          subst (λ o. StartsWith id o.1) (sym (add_peer_old l p ps e some_id old))
            (modify-StartsWith id p.id p ps h)
    ]
  ]

  add_all-StartsWith :
      (id : List ℕ) (more : List (Incoming l)) (ps : Store l)
      → StartsWith id ps
      → StartsWith id (add_all more ps)
  add_all-StartsWith id [] ps h = h
  add_all-StartsWith id (p ∷ more) ps h =
      add_all-StartsWith id more (add_peer l p ps).1 (add_peer-StartsWith id p ps h)

  -- "the local peer, which is always the first in the collection": whatever peers are added to a
  -- new store, its local peer is a peer with the id that it was made with.
  pub get_local_peer-add_all :
      (local : Incoming l) (more : List (Incoming l))
      → local.id ≢ []
      → (y : Peer Address) × (get_local_peer l (add_all more (peerstore_new l local)) ≡ some y)
        × (y.id ≡ local.id)
  unfolding peerstore_new
  get_local_peer-add_all local more ne = add_all-StartsWith local.id more (add_peer l local []).1 (
      subst (λ o. StartsWith local.id o.1) (sym (add_peer_new l local [] ne refl))
        (peer_copy l local, refl, refl))

  abbrev found_or_added :
      Incoming l → Store l → Option (Peer Address) → Option (Peer Address) × Store l
  found_or_added p ps o = elim o [
    | some e ↦ (some e, ps)
    | none ↦ let out = add_peer l p ps in (if out.0 then get_peer l p.id out.1 else none, out.1)
  ]

  found_or_added_found :
      (p : Incoming l) (ps : Store l) (q : Peer Address)
      → get_peer l p.id ps ≡ some q
      → get_or_add_peer l p ps ≡ (some q, ps)
  unfolding get_or_add_peer
  found_or_added_found p ps q h = ap (found_or_added p ps) h

  found_or_added_new :
      (p : Incoming l) (ps : Store l) (q : Peer Address)
      → get_peer l p.id ps ≡ none
      → (add_peer l p ps).0 ≡ true
      → get_peer l p.id (add_peer l p ps).1 ≡ some q
      → get_or_add_peer l p ps ≡ (some q, (add_peer l p ps).1)
  unfolding get_or_add_peer
  found_or_added_new p ps q new added there =
      ap (found_or_added p ps) new
      ∙ ap (λ o. (o, (add_peer l p ps).1)) (if_true (add_peer l p ps).0 _ _ added ∙ there)

module _ (l : Addresses) (law : Lawful l) where
  open l use {Address}

  -- Looking up or adding a peer with an id always gives a peer with that id, and doing it again
  -- gives the same one and leaves the store as it is.
  pub get_or_add_peer_twice :
      (p : Incoming l) (ps : Store l)
      → p.id ≢ []
      → (q : Peer Address) × (q.id ≡ p.id)
        × ((get_or_add_peer l p ps).0 ≡ some q)
        × (get_or_add_peer l p (get_or_add_peer l p ps).1 ≡ get_or_add_peer l p ps)
  get_or_add_peer_twice p ps ne = elim (Option-cases (get_peer l p.id ps)) [
    | inr (e, old) ↦
        let out = found_or_added_found l p ps e old in
        (
          e,
          sym (id-find l p.id ps e (sym (get_peer_lem l p.id ps ne) ∙ old)),
          ap (λ o. o.0) out,
          ap (λ o. get_or_add_peer l p o.1) out,
        )
    | inl new ↦
        let (added, (q, there, same, known)) = get_peer-add_peer l law p ps ne in
        let out = found_or_added_new l p ps q new added there in
        (
          q,
          same,
          ap (λ o. o.0) out,
          ap (λ o. get_or_add_peer l p o.1) out
              ∙ found_or_added_found l p (add_peer l p ps).1 q there
              ∙ sym out,
        )
  ]

module _ (l : Addresses) where
  open l use {Address}

  add_peer_added : (p : Incoming l) (ps : Store l) → p.id ≢ [] → (add_peer l p ps).0 ≡ true
  add_peer_added p ps ne = elim (Option-cases (find l p.id ps)) [
    | inl new ↦ ap (λ o. o.0) (add_peer_new l p ps ne new)
    | inr (e, old) ↦ ap (λ o. o.0) (add_peer_old l p ps e ne old)
  ]

  -- The variant by id does the same as for a peer of which only the id is known.
  pub get_or_add_peer_by_id_lem :
      (id : List ℕ) (ps : Store l)
      → get_or_add_peer_by_id l id ps ≡ get_or_add_peer l (record peer_new { id = id }) ps
  unfolding get_or_add_peer_by_id get_or_add_peer get_peer add_peer
  get_or_add_peer_by_id_lem [] ps = refl
  get_or_add_peer_by_id_lem (b ∷ id) ps =
      let key : List ℕ = b ∷ id in
      let p : Incoming l = record peer_new { id = key } in
      let some_id : key ≢ [] = λ e. cc in
      if_false (length key == 0) _ _ (id_test key some_id)
      ∙ elim (Option-cases (get_peer l key ps)) [
        | inr (e, old) ↦ ap (by_id p ps) old ∙ sym (ap (found_or_added l p ps) old)
        | inl new ↦
            let added = add_peer_added p ps some_id in
            ap (by_id p ps) new
            ∙ ap (λ o. (o, (add_peer l p ps).1)) (sym (if_true (add_peer l p ps).0 _ _ added))
            ∙ sym (ap (found_or_added l p ps) new)
      ]
    where
      by_id : Incoming l → Store l → Option (Peer Address) → Option (Peer Address) × Store l
      by_id p ps o = elim o [
        | some e ↦ (some e, ps)
        | none ↦ (get_peer l p.id (add_peer l p ps).1, (add_peer l p ps).1)
      ]
