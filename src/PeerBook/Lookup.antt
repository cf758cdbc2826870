-- ===== src/PeerBook/Lookup.antt =====
-- libp2p_v2_peerstore_get_peer finds what the store stands for.
use c_libp2p.Base.{ℕ, ◌≡◌, refl, sym, ap, ◌∙◌, List, [], ◌∷◌, none, some, true, false}
use c_libp2p.Base.{if_true, if_false, inl, inr, Bool-cases, bytes_eq, bytes_eq→eq}
use c_libp2p.Transport.{ok}
use c_libp2p.PeerBook.{PeerHeap, has_id, found_or, v2_find}
use c_libp2p.PeerBook.View.{Peers, lookup, known, peer, Shows}

-- one round of the search, at a peer that is shown
pub find_round :
    (h : PeerHeap) (p : ℕ) (ps : List ℕ) (id key addrs : List ℕ)
    → h.cell p ≡ some (peer key addrs)
    → v2_find id (p ∷ ps) h ≡ found_or p (ok (bytes_eq key id)) (v2_find id ps h)
unfolding v2_find
find_round h p ps id key addrs e = ap (λ c. found_or p (has_id id c) (v2_find id ps h)) e

pub v2_find-absent :
    (h : PeerHeap) (ps : List ℕ) (xs : Peers) (id : List ℕ)
    → Shows h.cell ps xs
    → known id xs ≡ false
    → v2_find id ps h ≡ ok none
unfolding v2_find
v2_find-absent h [] [] id s k = refl
v2_find-absent h [] (x ∷ xs) id s k = elim s [ ]
v2_find-absent h (p ∷ ps) [] id s k = elim s [ ]
v2_find-absent h (p ∷ ps) ((key, addrs) ∷ xs) id (e, s) k = elim (Bool-cases (bytes_eq key id)) [
  | inl same ↦ absurd (let k' = sym (if_true (bytes_eq key id) true (known id xs) same) ∙ k in cc)
  | inr other ↦
      find_round h p ps id key addrs e
      ∙ ap (λ b. found_or p (ok b) (v2_find id ps h)) other
      ∙ v2_find-absent h ps xs id s (sym (if_false (bytes_eq key id) true _ other) ∙ k)
]

-- the pointer that was found, and the addresses behind it
pub record Found (h : PeerHeap) (ps : List ℕ) (xs : Peers) (id : List ℕ) : Type 0 where
  pub at : ℕ
  pub addrs : List ℕ
  pub found : v2_find id ps h ≡ ok (some at)
  pub holds : h.cell at ≡ some (peer id addrs)
  pub looked_up : lookup id xs ≡ some addrs

pub v2_find-Found :
    (h : PeerHeap) (ps : List ℕ) (xs : Peers) (id : List ℕ)
    → Shows h.cell ps xs
    → known id xs ≡ true
    → Found h ps xs id
v2_find-Found h [] [] id s k = absurd (cc)
v2_find-Found h [] (x ∷ xs) id s k = elim s [ ]
v2_find-Found h (p ∷ ps) [] id s k = elim s [ ]
v2_find-Found h (p ∷ ps) ((key, addrs) ∷ xs) id (e, s) k = elim (Bool-cases (bytes_eq key id)) [
  | inl same ↦ record {
    at = p;
    addrs = addrs;
    found = find_round h p ps id key addrs e ∙ ap (λ b. found_or p (ok b) (v2_find id ps h)) same;
    holds = e ∙ ap (λ i. some (peer i addrs)) (bytes_eq→eq key id same);
    looked_up = if_true (bytes_eq key id) _ _ same;
  }
  | inr other ↦
      let deep = v2_find-Found h ps xs id s (sym (if_false (bytes_eq key id) true _ other) ∙ k) in
      record {
        at = deep.at;
        addrs = deep.addrs;
        found =
            find_round h p ps id key addrs e
            ∙ ap (λ b. found_or p (ok b) (v2_find id ps h)) other
            ∙ deep.found;
        holds = deep.holds;
        looked_up = if_false (bytes_eq key id) (some addrs) _ other ∙ deep.looked_up;
      }
]
