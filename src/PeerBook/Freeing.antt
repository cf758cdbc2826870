-- ===== src/PeerBook/Freeing.antt =====
-- libp2p_v2_peerstore_free, of a store and its peers.
use c_libp2p.Base.{ℕ, ◌≡◌, refl, ap, ◌∙◌, List, [], ◌∷◌, Option, none, some, false, ◌==◌}
use c_libp2p.Base.{All, if_true, if_false, inl, inr, Bool-cases}
use c_libp2p.Transport.{ok, undefined, ◌>>◌}
use c_libp2p.PeerBook.{
  PeerCell, PeerHeap, PeerBook, write, free_or, free_entries, replace, v2_add_peer, enter,
  replace_or, ids_match,
}
use c_libp2p.PeerBook.{v2_peerstore_free, v2_peerstore_new}
use c_libp2p.PeerBook.View.{Peers, Shows, AreDistinct}
use c_libp2p.PeerBook.Adding.{IsBook}
use c_libp2p.PeerBook.Addresses.{set_cell, at_itself, Shows-elsewhere}

-- the heap after the peers behind these pointers were freed, and no others
pub record AreFreed (h h' : PeerHeap) (ps : List ℕ) : Type 0 where
  pub freed : All (λ p. h'.cell p ≡ none) ps
  pub kept : (q : ℕ) → All (λ p. (p == q) ≡ false) ps → h'.cell q ≡ h.cell q
  pub gone : (q : ℕ) → h.cell q ≡ none → h'.cell q ≡ none

free_lem :
    (h : PeerHeap) (ps : List ℕ) (xs : Peers)
    → Shows h.cell ps xs
    → AreDistinct xs
    → (h' : PeerHeap) × (free_entries ps h ≡ ok h') × AreFreed h h' ps
unfolding free_entries
free_lem h [] xs s d = (h, refl, record { freed = tt; kept = λ q a. refl; gone = λ q e. e })
free_lem h (p ∷ ps) [] s d = elim s [ ]
free_lem h (p ∷ ps) ((key, addrs) ∷ xs) (e, s) (fresh, d) =
    let deeper =
      free_lem (write h p none) ps xs (Shows-elsewhere h.cell p none key addrs ps xs e fresh s) d in
    let (h', run, f) = deeper in
    (
      h',
      ap (λ c. free_or c (free_entries ps (write h p none))) e ∙ run,
      record {
        freed = (f.gone p (at_itself h.cell p none), f.freed);
        kept = λ q (n, ns). f.kept q ns ∙ if_false (p == q) none (h.cell q) n;
        gone = λ q e'. f.gone q (still q e');
      },
    )
  where
    still : (q : ℕ) → h.cell q ≡ none → set_cell h.cell p none q ≡ none
    still q e' = elim (Bool-cases (p == q)) [
      | inl t ↦ if_true (p == q) none (h.cell q) t
      | inr t ↦ if_false (p == q) none (h.cell q) t ∙ e'
    ]

-- A store of peers with different ids is freed without a fault: each of its peers is freed, and no
-- other.
pub v2_peerstore_free_lem :
    (b : PeerBook) (xs : Peers)
    → IsBook b xs
    → (h : PeerHeap) × (v2_peerstore_free b ≡ ok h) × AreFreed b.heap h b.head
v2_peerstore_free_lem b xs book = free_lem b.heap b.head xs book.shows book.distinct

double :
    (h : PeerHeap) (p : ℕ) (c : PeerCell)
    → h.cell p ≡ some c
    → free_entries (p ∷ p ∷ []) h ≡ undefined
unfolding free_entries
double h p c e =
    ap (λ o. free_or o (free_entries (p ∷ []) (write h p none))) e
    ∙ ap (λ o. free_or o (ok (write (write h p none) p none))) (at_itself h.cell p none)

-- A peer without an id that is added twice to a new store is in it twice, and to free the store is
-- undefined.
pub free_twice :
    (h : PeerHeap) (p : ℕ) (addrs : List ℕ) (id : Option (List ℕ))
    → h.cell p ≡ some (record { peer_id = none; addr_head = addrs })
    → v2_peerstore_free ((v2_add_peer p >> v2_add_peer p) (v2_peerstore_new h id)).1 ≡ undefined
unfolding v2_add_peer replace
free_twice h p addrs id e =
    let once : PeerBook = record { heap = h; local_peer_id = id; head = p ∷ [] } in
    ap
      (λ c.
        v2_peerstore_free (enter p once (replace_or p p [] (ids_match c (h.cell p)) (ok none))).1)
      e
    ∙ double h p (record { peer_id = none; addr_head = addrs }) e
