-- ===== src/PeerBook.antt =====
-- v2/src/peer/peerstore.c: the peers that v2 knows. A store is a list of pointers to peers that its
-- callers share, so the peers are cells of a heap, and their fields may change under the store. An
-- entry, and a node of a list of addresses, is reached through its list alone, and stands for its
-- pointer. `malloc` is taken to succeed. The fields for the Identify protocol are left out.
pub mod View
pub mod Lookup
pub mod Adding
pub mod Addresses
pub mod Freeing
pub mod Reached
mod Tests
use c_libp2p.Base.{ℕ, ◌+◌, List, [], ◌∷◌, Option, none, some}
use c_libp2p.Base.{Bool, true, false, ◌==◌, if◌then◌else◌, bytes_eq}
use c_libp2p.Transport.{Res, ok, failed, undefined, stuck, M, ◌>>=◌, ◌>>◌, pure}

-- struct Libp2pPeer: the id may be NULL, an address is the pointer to it
pub record PeerCell : Type 0 where
  pub peer_id : Option (List ℕ)
  pub addr_head : List ℕ

-- The peers in memory: a pointer to none is dangling. `fresh` and what lies behind it are free.
pub record PeerHeap : Type 0 where
  pub fresh : ℕ
  pub cell : ℕ → Option PeerCell

abbrev pub write : PeerHeap → ℕ → Option PeerCell → PeerHeap
write h p c = record h { cell = λ q. if p == q then c else h.cell q }

-- struct Libp2pV2Peerstore, with the heap
pub record PeerBook : Type 0 where
  pub heap : PeerHeap
  pub local_peer_id : Option (List ℕ)
  pub head : List ℕ

-- libp2p_v2_peerstore_new
abbrev pub v2_peerstore_new : PeerHeap → Option (List ℕ) → PeerBook
v2_peerstore_new h local_peer_id = record { heap = h; local_peer_id = local_peer_id; head = [] }

-- `id != NULL && strcmp(id, peer_id) == 0`
abbrev pub is_peer_id : List ℕ → Option (List ℕ) → Bool
is_peer_id id none = false
is_peer_id id (some peer_id) = bytes_eq peer_id id

-- the same of a peer that a pointer leads to
abbrev pub has_id : List ℕ → Option PeerCell → Res Bool
has_id id none = undefined
has_id id (some c) = ok (is_peer_id id c.peer_id)

abbrev pub found_or : ℕ → Res Bool → Res (Option ℕ) → Res (Option ℕ)
found_or p (ok true) rest = ok (some p)
found_or p (ok false) rest = rest
found_or p failed rest = failed
found_or p undefined rest = undefined
found_or p stuck rest = stuck

-- the loop of libp2p_v2_peerstore_get_peer
unfoldable pub v2_find : List ℕ → List ℕ → PeerHeap → Res (Option ℕ)
v2_find id [] h = ok none
v2_find id (p ∷ ps) h = found_or p (has_id id (h.cell p)) (v2_find id ps h)

-- libp2p_v2_peerstore_get_peer
abbrev pub v2_get_peer : List ℕ → M PeerBook (Option ℕ)
v2_get_peer id b = (v2_find id b.head b.heap, b)

abbrev pub id_is : List ℕ → Option (List ℕ) → Bool
id_is id none = false
id_is id (some peer_id) = bytes_eq id peer_id

-- The test of libp2p_v2_peerstore_add_peer, which looks at the new peer only where the id of the
-- entry's peer is set.
abbrev pub id_test : Option (List ℕ) → Option PeerCell → Res Bool
id_test none new = ok false
id_test (some id) none = undefined
id_test (some id) (some new) = ok (id_is id new.peer_id)

abbrev pub ids_match : Option PeerCell → Option PeerCell → Res Bool
ids_match none new = undefined
ids_match (some current) new = id_test current.peer_id new

abbrev pub keep_entry : ℕ → Res (Option (List ℕ)) → Res (Option (List ℕ))
keep_entry q (ok none) = ok none
keep_entry q (ok (some ps)) = ok (some (q ∷ ps))
keep_entry q failed = failed
keep_entry q undefined = undefined
keep_entry q stuck = stuck

abbrev pub replace_or : ℕ → ℕ → List ℕ → Res Bool → Res (Option (List ℕ)) → Res (Option (List ℕ))
replace_or p q qs (ok true) rest = ok (some (p ∷ qs))
replace_or p q qs (ok false) rest = keep_entry q rest
replace_or p q qs failed rest = failed
replace_or p q qs undefined rest = undefined
replace_or p q qs stuck rest = stuck

-- its loop: the entries with the peer of one of them replaced, if one has the same id
unfoldable pub replace : ℕ → List ℕ → PeerHeap → Res (Option (List ℕ))
replace p [] h = ok none
replace p (q ∷ qs) h = replace_or p q qs (ids_match (h.cell q) (h.cell p)) (replace p qs h)

abbrev pub enter : ℕ → PeerBook → Res (Option (List ℕ)) → Res (Unit {0}) × PeerBook
enter p b (ok (some ps)) = (ok tt, record b { head = ps })
enter p b (ok none) = (ok tt, record b { head = p ∷ b.head })
enter p b failed = (failed, b)
enter p b undefined = (undefined, b)
enter p b stuck = (stuck, b)

-- libp2p_v2_peerstore_add_peer
unfoldable pub v2_add_peer : ℕ → M PeerBook (Unit {0})
v2_add_peer p b = enter p b (replace p b.head b.heap)

-- a peer on the heap, by calloc and strdup
abbrev pub alloc_peer : List ℕ → M PeerBook ℕ
alloc_peer id b = (
  ok b.heap.fresh,
  record b {
    heap = record {
      fresh = b.heap.fresh + 1;
      cell = (write b.heap b.heap.fresh (some (record { peer_id = some id; addr_head = [] }))).cell;
    };
  },
)

abbrev pub push_cell : ℕ → ℕ → PeerBook → Option PeerCell → Res (Unit {0}) × PeerBook
push_cell p ma b none = (undefined, b)
push_cell p ma b (some c) =
    (ok tt, record b { heap = write b.heap p (some (record c { addr_head = ma ∷ c.addr_head })) })

-- the new node at the head of the addresses of a peer
abbrev pub push_address : ℕ → ℕ → M PeerBook (Unit {0})
push_address p ma b = push_cell p ma b (b.heap.cell p)

-- the peer that was found, or a new one
abbrev pub peer_or_new : List ℕ → Option ℕ → M PeerBook ℕ
peer_or_new id (some p) = pure p
peer_or_new id none = do p ← alloc_peer id; v2_add_peer p; pure p

-- libp2p_v2_peerstore_add_address
unfoldable pub v2_add_address : List ℕ → ℕ → M PeerBook (Unit {0})
v2_add_address id ma = do o ← v2_get_peer id; p ← peer_or_new id o; push_address p ma

abbrev pub free_or : Option PeerCell → Res PeerHeap → Res PeerHeap
free_or none rest = undefined
free_or (some c) rest = rest

-- The loop of libp2p_v2_peerstore_free: it reads and frees the peer of each entry.
unfoldable pub free_entries : List ℕ → PeerHeap → Res PeerHeap
free_entries [] h = ok h
free_entries (p ∷ ps) h = free_or (h.cell p) (free_entries ps (write h p none))

-- libp2p_v2_peerstore_free
abbrev pub v2_peerstore_free : PeerBook → Res PeerHeap
v2_peerstore_free b = free_entries b.head b.heap
