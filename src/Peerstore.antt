-- ===== src/Peerstore.antt =====
-- peer/peerstore.c, and libp2p_peer_new and libp2p_peer_copy of peer/peer.c: what is known of other
-- peers. The store is the list of its entries from `head_entry` on, and `last_entry` is the last of
-- them. Addresses come from a library of their own, of which two functions are used: the record
-- `Addresses`. Memory is taken to be there, and the log is left out.
pub mod Entries
pub mod Known
pub mod Local
mod Tests
use c_libp2p.Base.{ℕ, ◌≡◌, List, [], ◌∷◌, ◌++◌, Option, none, some, length, bytes_eq}
use c_libp2p.Base.{Bool, true, false, ltb, ◌==◌, ◌&&◌, ◌||◌, if◌then◌else◌}

-- The library of addresses: `same` says that multiaddress_compare is 0, `copy` is multiaddress_copy.
pub record Addresses : Type 1 where
  pub Address : Type 0
  pub same : Address → Address → Bool
  pub copy : Address → Address

-- what the store needs of it
pub record Lawful (l : Addresses) : Type 0 where
  pub same-copy : (a : l.Address) → l.same a (l.copy a) ≡ true

-- struct Libp2pPeer. The items of a list of addresses may be NULL in a peer that a caller brings;
-- those of a stored peer are not, as libp2p_peer_copy and the store leave such items out.
pub record Peer (Item : Type 0) : Type 0 where
  pub id : List ℕ
  pub addrs : List Item
  pub connection_type : ℕ
  pub session_context : Option ℕ
  pub is_local : Bool

-- libp2p_peer_new
abbrev pub peer_new : {Item : Type 0} → Peer Item
peer_new = record {
  id = [];
  addrs = [];
  connection_type = 0;
  session_context = none;
  is_local = false;
}

-- the comparison of an id in libp2p_peerstore_get_peer_entry
unfoldable pub is_id : List ℕ → List ℕ → Bool
unfolding bytes_eq
is_id peer_id id = length id == length peer_id && bytes_eq peer_id id

module _ (l : Addresses) where
  open l use {Address, same, copy}

  abbrev pub Incoming : Type 0
  Incoming = Peer (Option Address)

  abbrev pub Store : Type 0
  Store = List (Peer Address)

  abbrev pub copies : List (Option Address) → List Address
  copies [] = []
  copies (none ∷ items) = copies items
  copies (some a ∷ items) = copy a ∷ copies items

  -- libp2p_peer_copy
  abbrev pub peer_copy : Incoming → Peer Address
  peer_copy p = record {
    id = p.id;
    addrs = copies p.addrs;
    connection_type = p.connection_type;
    session_context = p.session_context;
    is_local = p.is_local;
  }

  abbrev pub found : Address → List Address → Bool
  found a [] = false
  found a (e ∷ es) = same a e || found a es

  -- libp2p_peerstore_update_addresses, on the two lists
  abbrev pub update_addresses : List (Option Address) → List Address → List Address
  update_addresses [] existing = existing
  update_addresses (none ∷ incoming) existing = update_addresses incoming existing
  update_addresses (some a ∷ incoming) existing =
      update_addresses incoming (if found a existing then existing else copy a ∷ existing)

  -- the loop of libp2p_peerstore_get_peer_entry
  abbrev pub find : List ℕ → Store → Option (Peer Address)
  find id [] = none
  find id (p ∷ ps) = if is_id id p.id then some p else find id ps

  -- libp2p_peerstore_get_peer_entry, and libp2p_peerstore_get_peer with it
  unfoldable pub get_peer : List ℕ → Store → Option (Peer Address)
  get_peer id ps = if length id == 0 then none else find id ps

  -- a change of the peer that `find` gives
  abbrev pub modify : List ℕ → (Peer Address → Peer Address) → Store → Store
  modify id f [] = []
  modify id f (p ∷ ps) = if is_id id p.id then f p ∷ ps else p ∷ modify id f ps

  abbrev pub updated : Incoming → Peer Address → Peer Address
  updated p e = record e { addrs = update_addresses p.addrs e.addrs }

  -- libp2p_peerstore_add_peer, with libp2p_peerstore_add_peer_entry
  unfoldable pub add_peer : Incoming → Store → Bool × Store
  add_peer p ps = elim (get_peer p.id ps) [
    | some e ↦ (true, modify p.id (updated p) ps)
    | none ↦ if ltb 0 (length p.id) then (true, ps ++ (peer_copy p ∷ [])) else (false, ps)
  ]

  -- libp2p_peerstore_new
  unfoldable pub peerstore_new : Incoming → Store
  peerstore_new local_peer = (add_peer local_peer []).1

  -- libp2p_peerstore_get_local_peer
  abbrev pub get_local_peer : Store → Option (Peer Address)
  get_local_peer [] = none
  get_local_peer (p ∷ ps) = some p

  -- libp2p_peerstore_get_or_add_peer_by_id
  unfoldable pub get_or_add_peer_by_id : List ℕ → Store → Option (Peer Address) × Store
  get_or_add_peer_by_id id ps = if length id == 0 then (none, ps) else elim (get_peer id ps) [
    | some e ↦ (some e, ps)
    | none ↦ let after = (add_peer (record peer_new { id = id }) ps).1 in (get_peer id after, after)
  ]

  -- libp2p_peerstore_get_or_add_peer
  unfoldable pub get_or_add_peer : Incoming → Store → Option (Peer Address) × Store
  get_or_add_peer p ps = elim (get_peer p.id ps) [
    | some e ↦ (some e, ps)
    | none ↦ let out = add_peer p ps in (if out.0 then get_peer p.id out.1 else none, out.1)
  ]
