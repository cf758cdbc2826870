-- ===== src/PeerBook/Tests.antt =====
-- A small heap with two peers, and the theorems over it.
use c_libp2p.Base.{
  ℕ, ◌≤◌, ◌≡◌, refl, List, [], ◌∷◌, Option, none, some, codes, arith, ◌==◌, if◌then◌else◌,
}
use c_libp2p.Transport.{ok}
use c_libp2p.PeerBook.{
  PeerCell, PeerHeap, PeerBook, v2_peerstore_new, v2_get_peer, v2_add_peer, v2_add_address,
  v2_peerstore_free,
}
use c_libp2p.PeerBook.View.{Peers, put_peer, peer}
use c_libp2p.PeerBook.Adding.{IsBook, v2_add_peer-IsBook}
use c_libp2p.PeerBook.Addresses.{HasAddress, v2_add_address-IsBook}
use c_libp2p.PeerBook.Freeing.{AreFreed}
use c_libp2p.PeerBook.Reached.{Reached, added, addressed, start, further, Reached-AreFreed}

-- peer 1 is in the store, peer 2 is not, and peer 3 has no id
abbrev cells : ℕ → Option PeerCell
cells q =
    if q == 1
    then some (peer (codes "Qm1") (11 ∷ []))
    else if q == 2
    then some (peer (codes "Qm2") [])
    else if q == 3
    then some (record { peer_id = none; addr_head = [] })
    else none

abbrev memory : PeerHeap
memory = record { fresh = 4; cell = cells }

abbrev book : PeerBook
book = record { heap = memory; local_peer_id = none; head = 1 ∷ [] }

unused : (q : ℕ) → 4 ≤ q → cells q ≡ none
unused q h = ground arith

abbrev contents : Peers
contents = (codes "Qm1", 11 ∷ []) ∷ []

book-IsBook : IsBook book contents
book-IsBook = record { shows = (refl, tt); distinct = (refl, tt); unused = unused }

v2_add_peer-IsBook_example :
    (ps : List ℕ) × (v2_add_peer 2 book ≡ (ok tt, record book { head = ps }))
    × IsBook (record book { head = ps }) (put_peer (codes "Qm2") [] contents)
    × (v2_get_peer (codes "Qm2") (record book { head = ps })
        ≡ (ok (some 2), record book { head = ps }))
v2_add_peer-IsBook_example = v2_add_peer-IsBook book contents 2 (codes "Qm2") [] book-IsBook refl

v2_add_address-IsBook_example :
    (b' : PeerBook) × (v2_add_address (codes "Qm1") 12 book ≡ (ok tt, b'))
    × HasAddress book b' contents (codes "Qm1") 12
v2_add_address-IsBook_example = v2_add_address-IsBook book contents (codes "Qm1") 12 book-IsBook

abbrev used : PeerBook
used = (v2_add_address (codes "Qm1") 12 (v2_add_peer 1 (v2_peerstore_new memory none)).1).1

used-Reached : Reached (v2_peerstore_new memory none) used
used-Reached =
    further (further start (added 1 (codes "Qm1") (11 ∷ []) refl)) (addressed (codes "Qm1") 12)

Reached-AreFreed_example :
    (xs : Peers) × IsBook used xs
    × (h : PeerHeap) × (v2_peerstore_free used ≡ ok h)
    × AreFreed used.heap h used.head
Reached-AreFreed_example = Reached-AreFreed memory none used unused used-Reached
