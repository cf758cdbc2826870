-- ===== src/Peerstore/Tests.antt =====
-- A small store, and the theorems at it.
use c_libp2p.Base.{ℕ, ◌≡◌, refl, [], ◌∷◌, none, some, true, ◌==◌, ==_refl}
use c_libp2p.Base.{codes, All}
use c_libp2p.Peerstore.{Addresses, Lawful, Peer, Store, Incoming, peer_new, get_peer, add_peer}
use c_libp2p.Peerstore.{is_id}
use c_libp2p.Peerstore.Known.{IsKnown, get_peer-add_peer}

-- addresses that are numbers
abbrev numbers : Addresses
numbers = record { Address = ℕ; same = ◌==◌; copy = λ a. a }

numbers-Lawful : Lawful numbers
numbers-Lawful = record { same-copy = ==_refl }

abbrev alice : Incoming numbers
alice = record peer_new { id = codes "alice"; addrs = some 4 ∷ none ∷ some 6 ∷ [] }

abbrev moved : Incoming numbers
moved = record alice { addrs = some 6 ∷ some 9 ∷ [] }

abbrev bob : Incoming numbers
bob = record peer_new { id = codes "bob" }

abbrev store : Store numbers
store = record peer_new { id = codes "alice"; addrs = 4 ∷ 6 ∷ [] } ∷ []

get_peer-add_peer_example :
    ((add_peer numbers moved store).0 ≡ true)
    × ((q : Peer ℕ) × (get_peer numbers (codes "alice") (add_peer numbers moved store).1 ≡ some q)
        × (q.id ≡ codes "alice")
        × All (IsKnown numbers q.addrs) (some 6 ∷ some 9 ∷ []))
get_peer-add_peer_example = get_peer-add_peer numbers numbers-Lawful moved store (λ e. cc)

moved_addresses :
    (add_peer numbers moved store).1
    ≡ record peer_new { id = codes "alice"; addrs = 9 ∷ 4 ∷ 6 ∷ [] } ∷ []
unfolding add_peer get_peer is_id
moved_addresses = refl
