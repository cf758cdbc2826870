-- ===== src/Providers/Tests.antt =====
-- A store with two announcements of one value.
use c_libp2p.Base.{ℕ, Option, ◌≡◌, List, [], ◌∷◌, some, codes, false}
use c_libp2p.Providers.{ProviderEntry, ProviderStore, providerstore_new, get_provider}
use c_libp2p.Providers.Announced.{provide_all, Names, get_provider-provide_all}

abbrev announced : List ProviderEntry
announced =
    record { hash = codes "x"; peer_id = codes "alice" }
    ∷ record { hash = codes "y"; peer_id = codes "bob" }
    ∷ record { hash = codes "y"; peer_id = codes "carol" }
    ∷ []

get_provider-provide_all_example :
    (s : ProviderStore) × (provide_all announced (providerstore_new (λ hash. false) (codes "me"))
      ≡ some s)
    × (o : Option (List ℕ)) × Names (codes "y") announced o
    × (get_provider (codes "y") s ≡ o)
get_provider-provide_all_example =
    get_provider-provide_all announced (λ hash. false) (codes "me") (codes "y")
