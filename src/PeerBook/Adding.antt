-- ===== src/PeerBook/Adding.antt =====
-- libp2p_v2_peerstore_add_peer, of a peer with an id.
use c_libp2p.Base.{ℕ, ◌≤◌, ◌≡◌, refl, ap, ap₂, ◌∙◌, List, [], ◌∷◌, none, some, true, false}
use c_libp2p.Base.{if_true, if_false, inl, inr, Bool-cases, bytes_eq, bytes_eq_refl}
use c_libp2p.Transport.{ok}
use c_libp2p.PeerBook.{
  PeerHeap, PeerBook, ids_match, keep_entry, replace_or, replace, enter, v2_add_peer, v2_get_peer,
  v2_find, found_or,
}
use c_libp2p.PeerBook.Lookup.{find_round}
use c_libp2p.PeerBook.View.{
  Peers, known, assign, put_peer, peer, Shows, AreDistinct, put_peer-AreDistinct,
}

-- one round of the loop, at a peer that is shown
replace_round :
    (h : PeerHeap) (p q : ℕ) (qs : List ℕ) (id addrs key old : List ℕ)
    → h.cell p ≡ some (peer id addrs)
    → h.cell q ≡ some (peer key old)
    → replace p (q ∷ qs) h ≡ replace_or p q qs (ok (bytes_eq key id)) (replace p qs h)
unfolding replace
replace_round h p q qs id addrs key old e e' =
    ap₂ (λ c d. replace_or p q qs (ids_match d c) (replace p qs h)) e e'

-- what the loop gives, for the pointers after it
pub data Replaced (h : PeerHeap) (p : ℕ) (ps : List ℕ) (id addrs : List ℕ) (xs : Peers)
    : Type 0 where
  replaced :
      (ps' : List ℕ)
      → known id xs ≡ true
      → replace p ps h ≡ ok (some ps')
      → Shows h.cell ps' (assign id addrs xs)
      → v2_find id ps' h ≡ ok (some p)
      → Replaced h p ps id addrs xs
  absent : known id xs ≡ false → replace p ps h ≡ ok none → Replaced h p ps id addrs xs

pub replace-Replaced :
    (h : PeerHeap) (p : ℕ) (ps : List ℕ) (id addrs : List ℕ) (xs : Peers)
    → h.cell p ≡ some (peer id addrs)
    → Shows h.cell ps xs
    → Replaced h p ps id addrs xs
unfolding replace
replace-Replaced h p [] id addrs [] e s = absent refl refl
replace-Replaced h p [] id addrs (x ∷ xs) e s = elim s [ ]
replace-Replaced h p (q ∷ qs) id addrs [] e s = elim s [ ]
replace-Replaced h p (q ∷ qs) id addrs ((key, old) ∷ xs) e (e', s) =
    elim (Bool-cases (bytes_eq key id)) [
      | inl same ↦
          replaced (p ∷ qs) (if_true (bytes_eq key id) true (known id xs) same)
            (step ∙ ap (λ b. replace_or p q qs (ok b) (replace p qs h)) same) (rw same (e, s))
            (find_self qs)
      | inr other ↦ deeper other (replace-Replaced h p qs id addrs xs e s)
    ]
  where
    find_self : (ps : List ℕ) → v2_find id (p ∷ ps) h ≡ ok (some p)
    find_self ps =
        find_round h p ps id id addrs e
        ∙ ap (λ b. found_or p (ok b) (v2_find id ps h)) (bytes_eq_refl id)

    step : replace p (q ∷ qs) h ≡ replace_or p q qs (ok (bytes_eq key id)) (replace p qs h)
    step = replace_round h p q qs id addrs key old e e'

    deeper :
        bytes_eq key id ≡ false
        → Replaced h p qs id addrs xs
        → Replaced h p (q ∷ qs) id addrs ((key, old) ∷ xs)
    deeper other (replaced qs' k r t f) =
        replaced (q ∷ qs') (if_false (bytes_eq key id) true (known id xs) other ∙ k)
          (step ∙ ap (λ b. replace_or p q qs (ok b) (replace p qs h)) other ∙ ap (keep_entry q) r)
          (rw other (e', t))
          (find_round h q qs' id key old e'
            ∙ ap (λ b. found_or q (ok b) (v2_find id qs' h)) other
            ∙ f)
    deeper other (absent k r) =
        absent (if_false (bytes_eq key id) true (known id xs) other ∙ k)
          (step ∙ ap (λ b. replace_or p q qs (ok b) (replace p qs h)) other ∙ ap (keep_entry q) r)

-- a store that stands for these peers
pub record IsBook (b : PeerBook) (xs : Peers) : Type 0 where
  pub shows : Shows b.heap.cell b.head xs
  pub distinct : AreDistinct xs
  pub unused : (q : ℕ) → b.heap.fresh ≤ q → b.heap.cell q ≡ none

-- To add a peer of the heap with an id succeeds, changes no peer, and leaves a store that stands for
-- the same peers with that one put_peer in, in the place of the one with its id or as the first. A search
-- for the id then gives the very pointer.
pub v2_add_peer-IsBook :
    (b : PeerBook) (xs : Peers) (p : ℕ) (id addrs : List ℕ)
    → IsBook b xs
    → b.heap.cell p ≡ some (peer id addrs)
    → (ps : List ℕ) × (v2_add_peer p b ≡ (ok tt, record b { head = ps }))
      × IsBook (record b { head = ps }) (put_peer id addrs xs)
      × (v2_get_peer id (record b { head = ps }) ≡ (ok (some p), record b { head = ps }))
unfolding v2_add_peer
v2_add_peer-IsBook b xs p id addrs book e =
    entered (replace-Replaced b.heap p b.head id addrs xs e book.shows)
  where
    entered :
        Replaced b.heap p b.head id addrs xs
        → (ps : List ℕ) × (enter p b (replace p b.head b.heap) ≡ (ok tt, record b { head = ps }))
          × IsBook (record b { head = ps }) (put_peer id addrs xs)
          × (v2_get_peer id (record b { head = ps }) ≡ (ok (some p), record b { head = ps }))
    entered (replaced ps k r t f) = (
      ps,
      ap (enter p b) r,
      record {
        shows = rw k t;
        distinct = put_peer-AreDistinct id addrs xs book.distinct;
        unused = book.unused;
      },
      ap (λ o. (o, record b { head = ps })) f,
    )
    entered (absent k r) = (
      p ∷ b.head,
      ap (enter p b) r,
      record {
        shows = rw k (e, book.shows);
        distinct = put_peer-AreDistinct id addrs xs book.distinct;
        unused = book.unused;
      },
      ap (λ o. (o, record b { head = p ∷ b.head }))
          (find_round b.heap p b.head id id addrs e
            ∙ ap (λ t. found_or p (ok t) (v2_find id b.head b.heap)) (bytes_eq_refl id)),
    )
