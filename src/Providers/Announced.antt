-- ===== src/Providers/Announced.antt =====
-- The store against the list of what was announced.
use c_libp2p.Base.{ℕ, zero, suc, ◌+◌, ◌<◌, ◌≡◌, refl, sym, ap, ◌∙◌, List, [], ◌∷◌, Option}
use c_libp2p.Base.{
  none, some, length, get_elem?, drop, drop_all, map, arith, Bool, true, if◌then◌else◌,
}
use c_libp2p.Base.{
  pos, Option-cases, inl, inr, ◌≢◌, subst, bytes_eq, bytes_eq_refl, bytes_eq→eq, ◌==◌, ◌&&◌,
  Bool-cases,
}
use c_libp2p.Vector.{Vector, vector_new, add, vector_get, slot}
use c_libp2p.Vector.Slots.{add_all, add_all_lem, vector_get_lem, slot-map}
use c_libp2p.Providers.{ProviderEntry, ProviderStore, providerstore_new, provide, matches}
use c_libp2p.Providers.{get_rounds, get_provider}

-- whom the announcements name for a value: the peer of the first one that is of this very value
pub data Names (hash : List ℕ) : List ProviderEntry → Option (List ℕ) → Type 0 where
  nobody : Names hash [] none
  at_first :
      {e : ProviderEntry} {es : List ProviderEntry}
      → e.hash ≡ hash
      → Names hash (e ∷ es) (some e.peer_id)
  at_later :
      {e : ProviderEntry} {es : List ProviderEntry} {o : Option (List ℕ)}
      → e.hash ≢ hash
      → Names hash es o
      → Names hash (e ∷ es) o

abbrev first_match : List ℕ → List ProviderEntry → Option (List ℕ)
first_match hash [] = none
first_match hash (e ∷ es) = if matches hash e then some e.peer_id else first_match hash es

matches_refl : (hash : List ℕ) (e : ProviderEntry) → e.hash ≡ hash → matches hash e ≡ true
unfolding matches
matches_refl hash e same =
    subst (λ l. (length e.hash == length l && bytes_eq e.hash l) ≡ true) same
      (ground (arith, bytes_eq_refl e.hash))

matches_same : (hash : List ℕ) (e : ProviderEntry) → matches hash e ≡ true → e.hash ≡ hash
unfolding matches
matches_same hash e h = bytes_eq→eq e.hash hash (ground arith)

first_match-Names : (hash : List ℕ) (es : List ProviderEntry) → Names hash es (first_match hash es)
first_match-Names hash [] = nobody
first_match-Names hash (e ∷ es) =
    let later = first_match-Names hash es in
    elim (Bool-cases (matches hash e)) [
      | inl found ↦
          subst (λ b. Names hash (e ∷ es) (if b then some e.peer_id else first_match hash es))
            (sym found) (at_first (matches_same hash e found))
      | inr other ↦
          subst (λ b. Names hash (e ∷ es) (if b then some e.peer_id else first_match hash es))
            (sym other)
            (at_later (λ same. absurd (ground (arith, other, matches_refl hash e same))) later)
    ]

-- Announcements one after the other.
abbrev pub provide_all : List ProviderEntry → ProviderStore → Option ProviderStore
provide_all [] s = some s
provide_all (e ∷ es) s = elim (provide e.hash e.peer_id s) [
  | none ↦ none
  | some s' ↦ provide_all es s'
]

abbrev with_entries : ProviderStore → Option (Vector ProviderEntry) → Option ProviderStore
with_entries s o = elim o [ none ↦ none | some v ↦ some (record s { provider_entries = v }) ]

abbrev stored : ProviderStore → Option (ℕ × Vector ProviderEntry) → Option ProviderStore
stored s o = elim o [ none ↦ none | some r ↦ some (record s { provider_entries = r.1 }) ]

abbrev then_all : List ProviderEntry → Option ProviderStore → Option ProviderStore
then_all es o = elim o [ none ↦ none | some s ↦ provide_all es s ]

abbrev then_entries :
    List ProviderEntry → Option (ℕ × Vector ProviderEntry) → Option (Vector ProviderEntry)
then_entries es o = elim o [ none ↦ none | some r ↦ add_all es r.1 ]

provide_all-add_all :
    (es : List ProviderEntry) (s : ProviderStore)
    → provide_all es s ≡ with_entries s (add_all es s.provider_entries)
unfolding provide
provide_all-add_all [] s = refl
provide_all-add_all (e ∷ es) s = elim (Option-cases (add true (some e) s.provider_entries)) [
  | inl full ↦
      ap (λ o. then_all es (stored s o)) full
      ∙ sym (ap (λ o. with_entries s (then_entries es o)) full)
  | inr (r, fits) ↦
      ap (λ o. then_all es (stored s o)) fits
      ∙ provide_all-add_all es (record s { provider_entries = r.1 })
      ∙ sym (ap (λ o. with_entries s (then_entries es o)) fits)
]

length-map-some : (es : List ProviderEntry) → length (map some es) ≡ length es
length-map-some [] = refl
length-map-some (e ∷ es) = ap suc (length-map-some es)

front :
    (es : List ProviderEntry) (i : ℕ)
    → i < length es
    → (e : ProviderEntry) × (get_elem? es i ≡ some e) × (drop i es ≡ e ∷ drop (suc i) es)
front [] i h = absurd (omega arith)
front (e ∷ es) zero h = (e, refl, refl)
front (e ∷ es) (suc i) h = front es i (omega arith)

abbrev round : List ℕ → Option (List ℕ) → Option ProviderEntry → Option (List ℕ)
round hash later o = elim o [
  | none ↦ later
  | some e ↦ if matches hash e then some e.peer_id else later
]

get_rounds_lem :
    (hash : List ℕ) (v : Vector ProviderEntry) (es : List ProviderEntry)
    → ((i : ℕ) → vector_get v (pos i) ≡ get_elem? es i)
    → (rounds i : ℕ) → i + rounds ≡ length es
    → get_rounds rounds i hash v ≡ first_match hash (drop i es)
unfolding get_rounds
get_rounds_lem hash v es at zero i len = ap (first_match hash) (sym (drop_all i es (omega arith)))
get_rounds_lem hash v es at (suc rounds) i len =
    let (e, here, rest) = front es i (omega arith) in
    ap (round hash (get_rounds rounds (suc i) hash v)) (at i ∙ here)
    ∙ ap (λ o. if matches hash e then some e.peer_id else o)
        (get_rounds_lem hash v es at rounds (suc i) (omega arith))
    ∙ sym (ap (first_match hash) rest)

-- Every announcement to a new store is kept. Asked for a value, the store names the local peer
-- where its datastore has the value, and else the peer of the first announcement, from index 0 on,
-- that is of the same bytes; it finds nothing only where there is none.
pub get_provider-provide_all :
    (es : List ProviderEntry) (has_locally : List ℕ → Bool) (local_id hash : List ℕ)
    → (s : ProviderStore) × (provide_all es (providerstore_new has_locally local_id) ≡ some s)
      × (o : Option (List ℕ)) × Names hash es o
      × (get_provider hash s ≡ (if has_locally hash then some local_id else o))
unfolding get_provider
get_provider-provide_all es has_locally local_id hash =
    let (v, all, items, ok) = add_all_lem es (vector_new 4) (refl, omega arith, omega arith) in
    let start = providerstore_new has_locally local_id in
    let at : (i : ℕ) → vector_get v (pos i) ≡ get_elem? es i =
      λ i. vector_get_lem v i ok ∙ ap (λ l. slot l i) items ∙ slot-map es i in
    (
      record start { provider_entries = v },
      provide_all-add_all es start ∙ ap (with_entries start) all,
      first_match hash es,
      first_match-Names hash es,
      ap (λ o. if has_locally hash then some local_id else o)
          (get_rounds_lem hash v es at v.total 0
            (omega (arith, ok.0, ap length items, length-map-some es))),
    )
