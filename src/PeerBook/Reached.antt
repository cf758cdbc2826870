-- ===== src/PeerBook/Reached.antt =====
-- The stores that the operations lead to.
use c_libp2p.Base.{ℕ, ◌+◌, ◌≤◌, ◌≡◌, refl, sym, ◌∙◌, List, [], ◌∷◌, Option, none, some, false, ◌==◌}
use c_libp2p.Base.{inl, inr, Bool-cases, subst, if_false, arith}
use c_libp2p.Transport.{Res, ok}
use c_libp2p.PeerBook.{
  PeerCell, PeerHeap, PeerBook, v2_peerstore_new, v2_get_peer, v2_add_peer, v2_add_address,
}
use c_libp2p.PeerBook.{v2_peerstore_free}
use c_libp2p.PeerBook.View.{Peers, lookup, known, put_peer, peer}
use c_libp2p.PeerBook.Lookup.{v2_find-absent, v2_find-Found}
use c_libp2p.PeerBook.Adding.{IsBook, v2_add_peer-IsBook}
use c_libp2p.PeerBook.Addresses.{
  set_cell, addresses_of, Shows-new, not_looked_up, v2_add_address-IsBook,
}
use c_libp2p.PeerBook.Freeing.{AreFreed, v2_peerstore_free_lem}

-- the answer to a search, in a store that stands for these peers
pub data Answer (b : PeerBook) (id : List ℕ) : Option (List ℕ) → Res (Option ℕ) → Type 0 where
  unknown : Answer b id none (ok none)
  known_at :
      (p : ℕ) (addrs : List ℕ)
      → b.heap.cell p ≡ some (peer id addrs)
      → Answer b id (some addrs) (ok (some p))

-- A search gives a pointer to a peer with this id and the addresses that the store stands for, or
-- NULL where the store stands for none, and changes nothing.
pub v2_get_peer-Answer :
    (b : PeerBook) (xs : Peers) (id : List ℕ)
    → IsBook b xs
    → Answer b id (lookup id xs) (v2_get_peer id b).0 × ((v2_get_peer id b).1 ≡ b)
v2_get_peer-Answer b xs id book = elim (Bool-cases (known id xs)) [
  | inl k ↦
      let f = v2_find-Found b.heap b.head xs id book.shows k in
      (rw (f.looked_up, f.found) (known_at f.at f.addrs f.holds), refl)
  | inr k ↦
      (rw (not_looked_up id xs k, v2_find-absent b.heap b.head xs id book.shows k) unknown, refl)
]

-- a caller makes a peer of its own
abbrev pub with_cell : PeerBook → PeerCell → PeerBook
with_cell b c = record b {
  heap = record { fresh = b.heap.fresh + 1; cell = set_cell b.heap.cell b.heap.fresh (some c) };
}

-- a step of a program that uses the store
pub data Step (b : PeerBook) : PeerBook → Type 0 where
  made : (c : PeerCell) → Step b (with_cell b c)
  added :
      (p : ℕ) (id addrs : List ℕ)
      → b.heap.cell p ≡ some (peer id addrs)
      → Step b (v2_add_peer p b).1
  addressed : (id : List ℕ) (ma : ℕ) → Step b (v2_add_address id ma b).1

pub data Reached (b : PeerBook) : PeerBook → Type 0 where
  start : Reached b b
  further : {c d : PeerBook} → Reached b c → Step c d → Reached b d

step-IsBook : {b c : PeerBook} (xs : Peers) → Step b c → IsBook b xs → (ys : Peers) × IsBook c ys
step-IsBook {b} xs (made c) book = (
  xs,
  record {
    shows =
        Shows-new b.heap.cell b.heap.fresh (some c) b.head xs
          (book.unused b.heap.fresh (omega arith)) book.shows;
    distinct = book.distinct;
    unused = λ q h.
        let differ : (b.heap.fresh == q) ≡ false = ground arith in
        if_false (b.heap.fresh == q) (some c) (b.heap.cell q) differ ∙ book.unused q (omega arith);
  },
)
step-IsBook {b} xs (added p id addrs e) book =
    let (ps, run, after, got) = v2_add_peer-IsBook b xs p id addrs book e in
    (put_peer id addrs xs, subst (λ r. IsBook r.1 (put_peer id addrs xs)) (sym run) after)
step-IsBook {b} xs (addressed id ma) book =
    let (c, run, after) = v2_add_address-IsBook b xs id ma book in
    (
      put_peer id (ma ∷ addresses_of (lookup id xs)) xs,
      subst (λ r. IsBook r.1 (put_peer id (ma ∷ addresses_of (lookup id xs)) xs)) (sym run)
          after.book,
    )

-- Whatever peers with ids are added to a new store, and whatever addresses, it stands for peers with
-- different ids.
Reached-IsBook :
    (h : PeerHeap) (id : Option (List ℕ)) (b : PeerBook)
    → ((q : ℕ) → h.fresh ≤ q → h.cell q ≡ none)
    → Reached (v2_peerstore_new h id) b
    → (xs : Peers) × IsBook b xs
Reached-IsBook h id b free start = ([], record { shows = tt; distinct = tt; unused = free })
Reached-IsBook h id b free (further r s) =
    let (xs, book) = Reached-IsBook h id _ free r in step-IsBook xs s book

-- Whatever peers with ids are added to a new store, and whatever addresses, it stands for peers with
-- different ids, and it is freed without a fault, with each of its peers and no other.
pub Reached-AreFreed :
    (h : PeerHeap) (id : Option (List ℕ)) (b : PeerBook)
    → ((q : ℕ) → h.fresh ≤ q → h.cell q ≡ none)
    → Reached (v2_peerstore_new h id) b
    → (xs : Peers) × IsBook b xs
      × (h' : PeerHeap) × (v2_peerstore_free b ≡ ok h')
      × AreFreed b.heap h' b.head
Reached-AreFreed h id b free r =
    let (xs, book) = Reached-IsBook h id b free r in
    let (h', run, f) = v2_peerstore_free_lem b xs book in (xs, book, h', run, f)
