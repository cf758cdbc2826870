-- ===== src/PeerBook/Addresses.antt =====
-- libp2p_v2_peerstore_add_address changes the peer through a pointer that it shares.
use c_libp2p.Base.{
  ℕ, ◌+◌, ◌≤◌, ◌≡◌, refl, sym, ap, ◌∙◌, List, [], ◌∷◌, Option, none, some, true, false,
}
use c_libp2p.Base.{
  ◌==◌, if◌then◌else◌, if_true, if_false, inl, inr, Bool-cases, bytes_eq, bytes_eq_refl,
  bytes_eq→eq, ==_refl, ==_iff, arith,
}
use mathlib.Core.Path.{fun_ext}
use c_libp2p.Transport.{ok}
use c_libp2p.PeerBook.{
  PeerCell, PeerHeap, PeerBook, write, found_or, v2_find, enter, replace, v2_add_peer,
}
use c_libp2p.PeerBook.{push_cell, v2_add_address}
use c_libp2p.PeerBook.View.{
  Peers, lookup, known, assign, put_peer, peer, Shows, AreDistinct, assign-AreDistinct,
}
use c_libp2p.PeerBook.Lookup.{find_round, v2_find-absent, v2_find-Found}
use c_libp2p.PeerBook.Adding.{Replaced, replaced, absent, replace-Replaced, IsBook}

abbrev key_of : Option PeerCell → List ℕ
key_of none = []
key_of (some c) = elim c.peer_id [ none ↦ [] | some id ↦ id ]

abbrev pub set_cell : (ℕ → Option PeerCell) → ℕ → Option PeerCell → ℕ → Option PeerCell
set_cell cell p c q = if p == q then c else cell q

-- A change of another peer is not seen.
pub Shows-elsewhere :
    (cell : ℕ → Option PeerCell) (p : ℕ) (c : Option PeerCell) (id addrs : List ℕ) (ps : List ℕ)
    (xs : Peers)
    → cell p ≡ some (peer id addrs)
    → known id xs ≡ false
    → Shows cell ps xs
    → Shows (set_cell cell p c) ps xs
Shows-elsewhere cell p c id addrs [] [] e k s = tt
Shows-elsewhere cell p c id addrs [] (x ∷ xs) e k s = elim s [ ]
Shows-elsewhere cell p c id addrs (q ∷ ps) [] e k s = elim s [ ]
Shows-elsewhere cell p c id addrs (q ∷ ps) ((key, old) ∷ xs) e k (e', s) = (
  elim (Bool-cases (p == q)) [
    | inl same ↦
        let here : cell p ≡ some (peer key old) = ap cell ((==_iff p q).0 same) ∙ e' in
        let keys : id ≡ key = ap key_of (sym e ∙ here) in
        absurd (
          let k' =
            sym k
            ∙ ap (λ i. known i ((key, old) ∷ xs)) keys
            ∙ if_true (bytes_eq key key) true _ (bytes_eq_refl key) in
          cc)
    | inr differ ↦ if_false (p == q) c (cell q) differ ∙ e'
  ],
  Shows-elsewhere cell p c id addrs ps xs e rest s,
)
  where
    rest : known id xs ≡ false
    rest = elim (Bool-cases (bytes_eq key id)) [
      | inl h ↦ absurd (let k' = sym (if_true (bytes_eq key id) true (known id xs) h) ∙ k in cc)
      | inr h ↦ sym (if_false (bytes_eq key id) true (known id xs) h) ∙ k
    ]

-- Nor is a new peer.
pub Shows-new :
    (cell : ℕ → Option PeerCell) (p : ℕ) (c : Option PeerCell) (ps : List ℕ) (xs : Peers)
    → cell p ≡ none
    → Shows cell ps xs
    → Shows (set_cell cell p c) ps xs
Shows-new cell p c [] [] e s = tt
Shows-new cell p c [] (x ∷ xs) e s = elim s [ ]
Shows-new cell p c (q ∷ ps) [] e s = elim s [ ]
Shows-new cell p c (q ∷ ps) ((key, old) ∷ xs) e (e', s) = (
  elim (Bool-cases (p == q)) [
    | inl same ↦ absurd (let e'' = sym e ∙ ap cell ((==_iff p q).0 same) ∙ e' in cc)
    | inr differ ↦ if_false (p == q) c (cell q) differ ∙ e'
  ],
  Shows-new cell p c ps xs e s,
)

found_same : (p q : ℕ) → ok (some p) ≡ ok (some q) → p ≡ q
found_same p q e = cc

-- A change of the peer that was found is seen as a change of its addresses.
Shows-update :
    (h : PeerHeap) (p : ℕ) (id addrs new : List ℕ) (ps : List ℕ) (xs : Peers)
    → v2_find id ps h ≡ ok (some p)
    → h.cell p ≡ some (peer id addrs)
    → AreDistinct xs
    → Shows h.cell ps xs
    → Shows (set_cell h.cell p (some (peer id new))) ps (assign id new xs)
Shows-update h p id addrs new [] [] f e d s = tt
Shows-update h p id addrs new [] (x ∷ xs) f e d s = elim s [ ]
Shows-update h p id addrs new (q ∷ ps) [] f e d s = elim s [ ]
Shows-update h p id addrs new (q ∷ ps) ((key, old) ∷ xs) f e (fresh, d) (e', s) =
    elim (Bool-cases (bytes_eq key id)) [
      | inl same ↦
          let q_is_p : q ≡ p = found_same q p (
            sym
              (find_round h q ps id key old e' ∙ ap (λ b. found_or q (ok b) (v2_find id ps h)) same)
            ∙ f) in
          rw same (
            if_true (p == q) _ _ (ap (λ r. p == r) q_is_p ∙ ==_refl p),
            Shows-elsewhere h.cell p (some (peer id new)) id addrs ps xs e
                (sym (ap (λ i. known i xs) (bytes_eq→eq key id same)) ∙ fresh) s,
          )
      | inr other ↦
          let deeper : v2_find id ps h ≡ ok (some p) =
            sym (
              find_round h q ps id key old e' ∙ ap (λ b. found_or q (ok b) (v2_find id ps h)) other)
            ∙ f in
          rw other (not_here other, Shows-update h p id addrs new ps xs deeper e d s)
    ]
  where
    not_here :
        bytes_eq key id ≡ false → set_cell h.cell p (some (peer id new)) q ≡ some (peer key old)
    not_here other = elim (Bool-cases (p == q)) [
      | inl same ↦
          let keys : key ≡ id = ap key_of (sym e' ∙ ap h.cell (sym ((==_iff p q).0 same)) ∙ e) in
          absurd (let k = sym other ∙ ap (λ i. bytes_eq i id) keys ∙ bytes_eq_refl id in cc)
      | inr differ ↦ if_false (p == q) (some (peer id new)) (h.cell q) differ ∙ e'
    ]

-- the addresses that are known of a peer
abbrev pub addresses_of : Option (List ℕ) → List ℕ
addresses_of none = []
addresses_of (some addrs) = addrs

unused_write :
    (cell : ℕ → Option PeerCell) (fresh p : ℕ) (c : PeerCell) (q : ℕ)
    → ((r : ℕ) → fresh ≤ r → cell r ≡ none)
    → cell p ≡ some c
    → fresh ≤ q
    → (c' : Option PeerCell) → set_cell cell p c' q ≡ none
unused_write cell fresh p c q free e h c' = elim (Bool-cases (p == q)) [
  | inl same ↦
      absurd (let e' : some c ≡ none = sym e ∙ ap cell ((==_iff p q).0 same) ∙ free q h in cc)
  | inr differ ↦ if_false (p == q) c' (cell q) differ ∙ free q h
]

-- the outcome of the call
pub record HasAddress (b b' : PeerBook) (xs : Peers) (id : List ℕ) (ma : ℕ) : Type 0 where
  pub local_same : b'.local_peer_id ≡ b.local_peer_id
  pub book : IsBook b' (put_peer id (ma ∷ addresses_of (lookup id xs)) xs)

old_peer :
    (b : PeerBook) (xs : Peers) (id : List ℕ) (ma : ℕ)
    → IsBook b xs
    → known id xs ≡ true
    → (b' : PeerBook) × (v2_add_address id ma b ≡ (ok tt, b')) × HasAddress b b' xs id ma
unfolding v2_add_address
old_peer b xs id ma book k =
    let f = v2_find-Found b.heap b.head xs id book.shows k in
    let c : PeerCell = peer id (ma ∷ f.addrs) in
    let h : PeerHeap = write b.heap f.at (some c) in
    (
      record b { heap = h },
      rw f.found (ap (push_cell f.at ma b) f.holds),
      record {
        local_same = refl;
        book =
            rw (f.looked_up, k)
              (record {
                shows =
                    Shows-update b.heap f.at id f.addrs (ma ∷ f.addrs) b.head xs f.found f.holds
                      book.distinct book.shows;
                distinct = assign-AreDistinct id (ma ∷ f.addrs) xs book.distinct;
                unused = λ q free.
                    unused_write b.heap.cell b.heap.fresh f.at (peer id f.addrs) q book.unused
                      f.holds free (some c);
              });
      },
    )

-- the store with a new peer in it
abbrev with_peer : PeerBook → List ℕ → List ℕ → PeerBook
with_peer b id addrs = record b {
  heap = record {
    fresh = b.heap.fresh + 1;
    cell = set_cell b.heap.cell b.heap.fresh (some (peer id addrs));
  };
  head = b.heap.fresh ∷ b.head;
}

abbrev allocated : PeerBook → List ℕ → PeerBook
allocated b id = record b {
  heap = record {
    fresh = b.heap.fresh + 1;
    cell = set_cell b.heap.cell b.heap.fresh (some (peer id []));
  };
}

pub at_itself : (cell : ℕ → Option PeerCell) (p : ℕ) (c : Option PeerCell) → set_cell cell p c p ≡ c
at_itself cell p c = if_true (p == p) c (cell p) (==_refl p)

add_allocated :
    (b : PeerBook) (xs : Peers) (id : List ℕ)
    → IsBook b xs
    → known id xs ≡ false
    → v2_add_peer b.heap.fresh (allocated b id) ≡ (ok tt, with_peer b id [])
unfolding v2_add_peer
add_allocated b xs id book k = entered (
    replace-Replaced (allocated b id).heap b.heap.fresh b.head id [] xs
      (at_itself b.heap.cell b.heap.fresh (some (peer id [])))
      (Shows-new b.heap.cell b.heap.fresh (some (peer id [])) b.head xs
        (book.unused b.heap.fresh (omega arith)) book.shows))
  where
    entered :
        Replaced (allocated b id).heap b.heap.fresh b.head id [] xs
        → enter b.heap.fresh (allocated b id) (replace b.heap.fresh b.head (allocated b id).heap)
          ≡ (ok tt, with_peer b id [])
    entered (replaced ps k' r t f) = absurd (let k'' = sym k ∙ k' in cc)
    entered (absent k' r) = ap (enter b.heap.fresh (allocated b id)) r

set_twice :
    (cell : ℕ → Option PeerCell) (p : ℕ) (c c' : Option PeerCell)
    → set_cell (set_cell cell p c) p c' ≡ set_cell cell p c'
set_twice cell p c c' =
    fun_ext λ q. elim (Bool-cases (p == q)) [ inl e ↦ rw e refl | inr e ↦ rw e refl ]

new_run :
    (b : PeerBook) (xs : Peers) (id : List ℕ) (ma : ℕ)
    → IsBook b xs
    → known id xs ≡ false
    → v2_add_address id ma b ≡ (ok tt, with_peer b id (ma ∷ []))
unfolding v2_add_address
new_run b xs id ma book k =
    let there : (with_peer b id []).heap.cell b.heap.fresh ≡ some (peer id []) =
      at_itself b.heap.cell b.heap.fresh (some (peer id [])) in
    rw (v2_find-absent b.heap b.head xs id book.shows k, add_allocated b xs id book k)
      (ap (push_cell b.heap.fresh ma (with_peer b id [])) there
        ∙ ap
            (λ cell. (
              ok tt,
              record b {
                heap = record { fresh = b.heap.fresh + 1; cell = cell };
                head = b.heap.fresh ∷ b.head;
              },
            ))
            (set_twice b.heap.cell b.heap.fresh (some (peer id [])) (some (peer id (ma ∷ [])))))

pub not_looked_up : (id : List ℕ) (xs : Peers) → known id xs ≡ false → lookup id xs ≡ none
not_looked_up id [] k = refl
not_looked_up id ((key, addrs) ∷ xs) k = elim (Bool-cases (bytes_eq key id)) [
  | inl h ↦ absurd (let k' = sym (if_true (bytes_eq key id) true (known id xs) h) ∙ k in cc)
  | inr h ↦
      if_false (bytes_eq key id) _ _ h
      ∙ not_looked_up id xs (sym (if_false (bytes_eq key id) true (known id xs) h) ∙ k)
]

new_peer :
    (b : PeerBook) (xs : Peers) (id : List ℕ) (ma : ℕ)
    → IsBook b xs
    → known id xs ≡ false
    → (b' : PeerBook) × (v2_add_address id ma b ≡ (ok tt, b')) × HasAddress b b' xs id ma
new_peer b xs id ma book k = (
  with_peer b id (ma ∷ []),
  new_run b xs id ma book k,
  record {
    local_same = refl;
    book =
        rw (not_looked_up id xs k, k)
          (record {
            shows = (
              at_itself b.heap.cell b.heap.fresh (some (peer id (ma ∷ []))),
              Shows-new b.heap.cell b.heap.fresh (some (peer id (ma ∷ []))) b.head xs
                  (book.unused b.heap.fresh (omega arith)) book.shows,
            );
            distinct = (k, book.distinct);
            unused = λ q h.
                let differ : (b.heap.fresh == q) ≡ false = ground arith in
                if_false (b.heap.fresh == q) _ (b.heap.cell q) differ ∙ book.unused q (omega arith);
          });
  },
)

-- To add an address succeeds, and leaves a store that stands for the same peers with the address
-- before the others of its peer, which becomes a new first peer if it was not known. No other peer's
-- addresses change.
pub v2_add_address-IsBook :
    (b : PeerBook) (xs : Peers) (id : List ℕ) (ma : ℕ)
    → IsBook b xs
    → (b' : PeerBook) × (v2_add_address id ma b ≡ (ok tt, b')) × HasAddress b b' xs id ma
v2_add_address-IsBook b xs id ma book = elim (Bool-cases (known id xs)) [
  | inl k ↦ old_peer b xs id ma book k
  | inr k ↦ new_peer b xs id ma book k
]
