-- ===== src/Vector/Slots.antt =====
-- What the vector keeps true, and that it holds what was added to it.
use c_libp2p.Base.{ℕ, zero, suc, ◌+◌, ◌*◌, ◌≤◌, ◌<◌, ◌≡◌, refl, sym, ap, ◌∙◌}
use c_libp2p.Base.{List, [], ◌∷◌, ◌++◌, Option, none, some, length, arith, length-append, get_elem?}
use c_libp2p.Base.{true, ltb, ◌==◌, if◌then◌else◌, Bool-cases, inl, inr, map}
use c_libp2p.Base.{append_assoc, append-nil, pos}
use c_libp2p.Vector.{Vector, vector_new, add, slot, vector_get}

module _ {ℓ} {A : Type ℓ} where
  -- There is a slot, the vector is within its capacity, and `total` counts the slots in use.
  abbrev pub IsVector : Vector A → Type 0
  IsVector v = (length v.items ≡ v.total) × (v.total ≤ v.capacity) × (0 < v.capacity)

  abbrev pub added : Option A → Vector A → Vector A
  added item v = record {
    capacity = if v.capacity == v.total then v.capacity * 2 else v.capacity;
    total = v.total + 1;
    items = v.items ++ (item ∷ []);
  }

  add_lem :
      (item : Option A) (v : Vector A)
      → IsVector v
      → add true item v ≡ some (v.total + 1, added item v)
  unfolding add
  add_lem item v (e, le, some_room) = elim (Bool-cases (v.capacity == v.total)) [
    | inl full ↦ let room : ltb v.total (v.capacity * 2) ≡ true = ground arith in rw (full, room)
    | inr not_full ↦ let room : ltb v.total v.capacity ≡ true = ground arith in rw (not_full, room)
  ]

  added-IsVector : (item : Option A) (v : Vector A) → IsVector v → IsVector (added item v)
  added-IsVector item v (e, le, some_room) = ground (arith, length-append v.items (item ∷ []))

  -- Items added one after the other, while there is memory.
  abbrev pub add_all : List A → Vector A → Option (Vector A)
  add_all [] v = some v
  add_all (x ∷ xs) v = elim (add true (some x) v) [ none ↦ none | some r ↦ add_all xs r.1 ]

  pub add_all_lem :
      (xs : List A) (v : Vector A)
      → IsVector v
      → (v' : Vector A) × (add_all xs v ≡ some v')
        × (v'.items ≡ v.items ++ map some xs)
        × IsVector v'
  add_all_lem [] v h = (v, refl, sym (append-nil v.items), h)
  add_all_lem (x ∷ xs) v h =
      let (v', all, items, ok) = add_all_lem xs (added (some x) v) (added-IsVector (some x) v h) in
      (
        v',
        ap (λ o. elim o [ none ↦ none | some r ↦ add_all xs r.1 ]) (add_lem (some x) v h) ∙ all,
        items ∙ append_assoc v.items (some x ∷ []) (map some xs),
        ok,
      )

  pub slot_past : (items : List (Option A)) (i : ℕ) → length items ≤ i → slot items i ≡ none
  slot_past [] i h = refl
  slot_past (x ∷ items) zero h = absurd (omega arith)
  slot_past (x ∷ items) (suc i) h = slot_past items i (omega arith)

  -- An index past the total reads NULL, as does a slot that is not there.
  pub vector_get_lem : (v : Vector A) (i : ℕ) → IsVector v → vector_get v (pos i) ≡ slot v.items i
  unfolding vector_get
  vector_get_lem v i (e, le, some_room) = elim (Bool-cases (ltb i v.total)) [
    | inl inside ↦ rw inside
    | inr past ↦ rw past (sym (slot_past v.items i (ground arith)))
  ]

  pub slot-map : (xs : List A) (i : ℕ) → slot (map some xs) i ≡ get_elem? xs i
  slot-map [] i = refl
  slot-map (x ∷ xs) zero = refl
  slot-map (x ∷ xs) (suc i) = slot-map xs i

  -- While there is memory, a new vector with a slot at least takes any number of items, never
  -- writes beyond its array, and gives each of them back at its index, and NULL past the last.
  pub vector_get-add_all :
      (xs : List A) (initial_size : ℕ)
      → 0 < initial_size
      → (v : Vector A) × (add_all xs (vector_new initial_size) ≡ some v)
        × IsVector v
        × ((i : ℕ) → vector_get v (pos i) ≡ get_elem? xs i)
  vector_get-add_all xs initial_size some_room =
      let (v, all, items, ok) =
        add_all_lem xs (vector_new initial_size) (refl, omega arith, some_room) in
      (v, all, ok, λ i. vector_get_lem v i ok ∙ ap (λ l. slot l i) items ∙ slot-map xs i)
