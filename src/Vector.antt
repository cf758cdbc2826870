-- ===== src/Vector.antt =====
-- utils/vector.c: an array of pointers that grows. A capacity is an int that is taken not to
-- overflow when it is doubled.
pub mod Slots
pub mod Deletion
mod Tests
use c_libp2p.Base.{ℕ, zero, suc, ◌+◌, ◌-◌, ◌*◌, ◌/◌, List, [], ◌∷◌, ◌++◌, Option, none, some, set}
use c_libp2p.Base.{Bool, ltb, ◌==◌, ◌&&◌, if◌then◌else◌, get_elem?, take, ℤ, pos, negsuc}

-- struct Libp2pVector: `items` are the slots below `total`, and NULL is `none`.
pub record Vector {ℓ} (A : Type ℓ) : Type ℓ where
  pub capacity : ℕ
  pub total : ℕ
  pub items : List (Option A)

module _ {ℓ} {A : Type ℓ} where
  -- libp2p_utils_vector_new
  abbrev pub vector_new : ℕ → Vector A
  vector_new initial_size = record { capacity = initial_size; total = 0; items = [] }

  -- libp2p_utils_vector_resize; `room` says that realloc finds memory
  abbrev pub resize : Bool → ℕ → Vector A → Vector A
  resize room capacity v = if room then record v { capacity = capacity } else v

  -- libp2p_utils_vector_add: the new total. `none` is a write beyond the array.
  unfoldable pub add : Bool → Option A → Vector A → Option (ℕ × Vector A)
  add room item v =
      let v' = if v.capacity == v.total then resize room (v.capacity * 2) v else v in
      if ltb v'.total v'.capacity
      then some (v'.total + 1, record v' { total = v'.total + 1; items = v'.items ++ (item ∷ []) })
      else none

  -- the slot of an index, NULL where there is none
  abbrev pub slot : List (Option A) → ℕ → Option A
  slot items i = elim (get_elem? items i) [ none ↦ none | some item ↦ item ]

  -- libp2p_utils_vector_set
  unfoldable pub vector_set : ℤ → Option A → Vector A → Vector A
  vector_set (negsuc k) item v = v
  vector_set (pos i) item v = if ltb i v.total then record v { items = set v.items i item } else v

  -- libp2p_utils_vector_get
  unfoldable pub vector_get : Vector A → ℤ → Option A
  vector_get v (negsuc k) = none
  vector_get v (pos i) = if ltb i v.total then slot v.items i else none

  -- the loop of libp2p_utils_vector_delete: `rounds` rounds from `i` on
  pub shift_rounds : ℕ → ℕ → List (Option A) → List (Option A)
  shift_rounds zero i items = items
  shift_rounds (suc rounds) i items =
      shift_rounds rounds (suc i) (set (set items i (slot items (suc i))) (suc i) none)

  -- libp2p_utils_vector_delete
  unfoldable pub delete : Bool → ℤ → Vector A → Vector A
  unfolding shift_rounds
  delete room (negsuc k) v = v
  delete room (pos index) v =
      if ltb index v.total
      then (let moved = shift_rounds (v.total - 1) 0 (set v.items index none) in
          let v' = record v { total = v.total - 1; items = take (v.total - 1) moved } in
          if ltb 0 v'.total && v'.total == v'.capacity / 4
          then resize room (v'.capacity / 2) v'
          else v')
      else v
