-- ===== src/PeerBook/View.antt =====
-- What a store stands for: a map from ids to lists of addresses.
use c_libp2p.Base.{
  ℕ, ◌≡◌, ◌≢◌, refl, sym, ap, ◌∙◌, List, [], ◌∷◌, Option, none, some, Bool, true, false,
  if◌then◌else◌,
}
use c_libp2p.Base.{if_false, inl, inr, Bool-cases, bytes_eq, bytes_eq_refl, bytes_eq→eq}
use c_libp2p.PeerBook.{PeerCell}

-- known peers, with their addresses
abbrev pub Peers : Type 0
Peers = List (List ℕ × List ℕ)

abbrev pub lookup : List ℕ → Peers → Option (List ℕ)
lookup id [] = none
lookup id ((key, addrs) ∷ xs) = if bytes_eq key id then some addrs else lookup id xs

-- the addresses of one peer set, as a new first peer if it is not known
abbrev pub known : List ℕ → Peers → Bool
known id [] = false
known id ((key, addrs) ∷ xs) = if bytes_eq key id then true else known id xs

abbrev pub assign : List ℕ → List ℕ → Peers → Peers
assign id new [] = []
assign id new ((key, addrs) ∷ xs) =
    if bytes_eq key id then (id, new) ∷ xs else (key, addrs) ∷ assign id new xs

abbrev pub put_peer : List ℕ → List ℕ → Peers → Peers
put_peer id new xs = if known id xs then assign id new xs else (id, new) ∷ xs

-- no id twice
abbrev pub AreDistinct : Peers → Type 0
AreDistinct [] = Unit
AreDistinct ((key, addrs) ∷ xs) = (known key xs ≡ false) × AreDistinct xs

abbrev pub peer : List ℕ → List ℕ → PeerCell
peer id addrs = record { peer_id = some id; addr_head = addrs }

-- the pointers of a store lead to these peers
abbrev pub Shows : (ℕ → Option PeerCell) → List ℕ → Peers → Type 0
Shows cell [] [] = Unit
Shows cell [] (x ∷ xs) = ⊥
Shows cell (p ∷ ps) [] = ⊥
Shows cell (p ∷ ps) ((id, addrs) ∷ xs) = (cell p ≡ some (peer id addrs)) × Shows cell ps xs

lookup-assign_same :
    (id new : List ℕ) (xs : Peers) → known id xs ≡ true → lookup id (assign id new xs) ≡ some new
lookup-assign_same id new [] k = absurd (cc)
lookup-assign_same id new ((key, addrs) ∷ xs) k = elim (Bool-cases (bytes_eq key id)) [
  | inl e ↦ rw (e, bytes_eq_refl id) refl
  | inr e ↦ rw (e, e) (lookup-assign_same id new xs (sym (if_false (bytes_eq key id) true _ e) ∙ k))
]

eq_false : (a b : List ℕ) → a ≢ b → bytes_eq a b ≡ false
eq_false a b h = elim (Bool-cases (bytes_eq a b)) [
  | inl e ↦ absurd (h (bytes_eq→eq a b e))
  | inr e ↦ e
]

lookup-assign_other :
    (id other new : List ℕ) (xs : Peers)
    → id ≢ other
    → lookup other (assign id new xs) ≡ lookup other xs
lookup-assign_other id other new [] h = refl
lookup-assign_other id other new ((key, addrs) ∷ xs) h = elim (Bool-cases (bytes_eq key id)) [
  | inl e ↦
      let different : bytes_eq key other ≡ false =
        rw (bytes_eq→eq key id e) (eq_false id other h) in
      rw (e, eq_false id other h, different) refl
  | inr e ↦ rw (e, lookup-assign_other id other new xs h) refl
]

pub lookup-put_peer_same :
    (id new : List ℕ) (xs : Peers) → lookup id (put_peer id new xs) ≡ some new
lookup-put_peer_same id new xs = elim (Bool-cases (known id xs)) [
  | inl k ↦ rw k (lookup-assign_same id new xs k)
  | inr k ↦ rw (k, bytes_eq_refl id) refl
]

pub lookup-put_peer_other :
    (id other new : List ℕ) (xs : Peers)
    → id ≢ other
    → lookup other (put_peer id new xs) ≡ lookup other xs
lookup-put_peer_other id other new xs h = elim (Bool-cases (known id xs)) [
  | inl k ↦ rw k (lookup-assign_other id other new xs h)
  | inr k ↦ rw (k, eq_false id other h) refl
]

known-assign : (id new key : List ℕ) (xs : Peers) → known key (assign id new xs) ≡ known key xs
known-assign id new key [] = refl
known-assign id new key ((k, addrs) ∷ xs) = elim (Bool-cases (bytes_eq k id)) [
  | inl e ↦ rw (e, bytes_eq→eq k id e) refl
  | inr e ↦ rw (e, known-assign id new key xs) refl
]

pub assign-AreDistinct :
    (id new : List ℕ) (xs : Peers) → AreDistinct xs → AreDistinct (assign id new xs)
assign-AreDistinct id new [] d = tt
assign-AreDistinct id new ((k, addrs) ∷ xs) (d, ds) = elim (Bool-cases (bytes_eq k id)) [
  | inl e ↦ rw e (sym (ap (λ i. known i xs) (bytes_eq→eq k id e)) ∙ d, ds)
  | inr e ↦ rw e (known-assign id new k xs ∙ d, assign-AreDistinct id new xs ds)
]

pub put_peer-AreDistinct :
    (id new : List ℕ) (xs : Peers) → AreDistinct xs → AreDistinct (put_peer id new xs)
put_peer-AreDistinct id new xs d = elim (Bool-cases (known id xs)) [
  | inl k ↦ rw k (assign-AreDistinct id new xs d)
  | inr k ↦ rw k (k, d)
]
