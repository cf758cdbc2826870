-- ===== src/Providers.antt =====
-- peer/providerstore.c: which peer can provide a value. Its entries stand in a vector. Whether the
-- local datastore has the value is a parameter: the file calls the datastore by a pointer.
pub mod Announced
mod Tests
use c_libp2p.Base.{ℕ, zero, suc, ◌+◌, List, [], ◌∷◌, Option, none, some, length, bytes_eq}
use c_libp2p.Base.{Bool, true, false, ltb, ◌==◌, ◌&&◌, if◌then◌else◌, pos}
use c_libp2p.Vector.{Vector, vector_new, add, vector_get}

-- struct ProviderEntry
pub record ProviderEntry : Type 0 where
  pub hash : List ℕ
  pub peer_id : List ℕ

-- struct ProviderStore: `has_locally` stands for the datastore_get of its datastore, `local_id` is
-- the id of its local peer.
pub record ProviderStore : Type 0 where
  pub provider_entries : Vector ProviderEntry
  pub has_locally : List ℕ → Bool
  pub local_id : List ℕ

-- libp2p_providerstore_new
abbrev pub providerstore_new : (List ℕ → Bool) → List ℕ → ProviderStore
providerstore_new has_locally local_id = record {
  provider_entries = vector_new 4;
  has_locally = has_locally;
  local_id = local_id;
}

-- libp2p_providerstore_add. `none` is a write beyond the vector.
unfoldable pub provide : List ℕ → List ℕ → ProviderStore → Option ProviderStore
provide hash peer_id s =
    elim (add true (some (record { hash = hash; peer_id = peer_id })) s.provider_entries) [
      | none ↦ none
      | some r ↦ some (record s { provider_entries = r.1 })
    ]

unfoldable pub matches : List ℕ → ProviderEntry → Bool
matches hash e = length e.hash == length hash && bytes_eq e.hash hash

-- The loop of libp2p_providerstore_get, from index `i` on. An entry that is NULL is read through:
-- no entry is.
pub get_rounds : ℕ → ℕ → List ℕ → Vector ProviderEntry → Option (List ℕ)
get_rounds zero i hash v = none
get_rounds (suc rounds) i hash v =
    let later = get_rounds rounds (suc i) hash v in
    elim (vector_get v (pos i)) [
      | none ↦ later
      | some e ↦ if matches hash e then some e.peer_id else later
    ]

-- libp2p_providerstore_get: the id of a peer that provides the value
unfoldable pub get_provider : List ℕ → ProviderStore → Option (List ℕ)
get_provider hash s =
    if s.has_locally hash
    then some s.local_id
    else get_rounds s.provider_entries.total 0 hash s.provider_entries
