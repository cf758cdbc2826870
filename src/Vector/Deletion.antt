-- ===== src/Vector/Deletion.antt =====
-- What libp2p_utils_vector_delete does to the other items.
use c_libp2p.Base.{ℕ, zero, suc, ◌-◌, ◌/◌, ◌≤◌, ◌<◌, ◌≡◌, refl, sym, ap, ◌∙◌}
use c_libp2p.Base.{List, [], ◌∷◌, Option, none, length, arith, length-set}
use c_libp2p.Base.{Bool, true, false, ltb, ◌==◌, if◌then◌else◌, take, drop}
use c_libp2p.Base.{pos, set, ◌&&◌, length-drop}
use c_libp2p.Vector.{Vector, resize, slot, vector_get, shift_rounds, delete}
use c_libp2p.Vector.Slots.{IsVector, vector_get_lem}

quarter :
    (total capacity : ℕ)
    → (ltb 0 total && total == capacity / 4) ≡ true
    → (total ≤ capacity / 2) × (0 < capacity / 2)
quarter total capacity h = ground arith

suc_test : (i index : ℕ) → (suc i == suc index) ≡ (i == index)
suc_test i index = ground arith

module _ {ℓ} {A : Type ℓ} where
  shift_rounds_past :
      (rounds i : ℕ) (y : Option A) (items : List (Option A))
      → shift_rounds rounds (suc i) (y ∷ items) ≡ y ∷ shift_rounds rounds i items
  unfolding shift_rounds
  shift_rounds_past zero i y items = refl
  shift_rounds_past (suc rounds) i y items = shift_rounds_past rounds (suc i) y _

  -- The loop starts at the first slot, whatever is to be deleted.
  shift_rounds_lem :
      (x : Option A) (items : List (Option A)) (rounds : ℕ)
      → length items ≡ rounds
      → take rounds (shift_rounds rounds 0 (x ∷ items)) ≡ items
  unfolding shift_rounds
  shift_rounds_lem x [] zero e = refl
  shift_rounds_lem x [] (suc rounds) e = absurd (omega arith)
  shift_rounds_lem x (y ∷ items) zero e = absurd (omega arith)
  shift_rounds_lem x (y ∷ items) (suc rounds) e =
      ap (λ l. take (suc rounds) l) (shift_rounds_past rounds 0 y (none ∷ items))
      ∙ ap (λ l. y ∷ l) (shift_rounds_lem none items rounds (omega arith))

  all_but_first :
      (items : List (Option A)) (total : ℕ)
      → length items ≡ total
      → 0 < total
      → take (total - 1) (shift_rounds (total - 1) 0 items) ≡ drop 1 items
  all_but_first [] total e h = absurd (omega arith)
  all_but_first (x ∷ items) total e h = shift_rounds_lem x items (total - 1) (omega arith)

  -- Where the array may shrink, what is in it stays.
  resized :
      (shrinks room : Bool) (capacity : ℕ) (v : Vector A)
      → IsVector v
      → (shrinks ≡ true → (v.total ≤ capacity) × (0 < capacity))
      → let v' = if shrinks then resize room capacity v else v in (v'.items ≡ v.items) × IsVector v'
  resized false room capacity v ok fits = (refl, ok)
  resized true false capacity v ok fits = (refl, ok)
  resized true true capacity v (e, le, some_room) fits = (refl, (e, (fits refl).0, (fits refl).1))

  -- A deletion, up to the capacity.
  delete_lem :
      (room : Bool) (index : ℕ) (v : Vector A)
      → IsVector v
      → index < v.total
      → ((delete room (pos index) v).items ≡ drop 1 (set v.items index none))
        × IsVector (delete room (pos index) v)
  unfolding delete
  delete_lem room index v (e, le, some_room) h =
      let inside : ltb index v.total ≡ true = ground arith in
      let len : length (set v.items index none) ≡ v.total =
        omega (arith, length-set v.items index none) in
      let left = all_but_first (set v.items index none) v.total len (omega arith) in
      let count : length (drop 1 (set v.items index none)) ≡ v.total - 1 =
        omega (arith, length-drop 1 (set v.items index none)) in
      let ends =
        resized (ltb 0 (v.total - 1) && v.total - 1 == v.capacity / 4) room (v.capacity / 2)
          (record v {
            total = v.total - 1;
            items = take (v.total - 1) (shift_rounds (v.total - 1) 0 (set v.items index none));
          })
          (ap length left ∙ count, omega arith, some_room) (quarter (v.total - 1) v.capacity) in
      rw inside (ends.0 ∙ left, ends.1)

  none_either : (b : Bool) → ◌≡◌ {A = Option A} none (if b then none else none)
  none_either true = refl
  none_either false = refl

  slot-set :
      (items : List (Option A)) (index i : ℕ)
      → slot (set items index none) i ≡ (if i == index then none else slot items i)
  slot-set [] index i = none_either (i == index)
  slot-set (x ∷ items) zero zero = refl
  slot-set (x ∷ items) zero (suc i) =
      let differ : (suc i == 0) ≡ false = ground arith in rw differ refl
  slot-set (x ∷ items) (suc index) zero =
      let differ : (0 == suc index) ≡ false = ground arith in rw differ refl
  slot-set (x ∷ items) (suc index) (suc i) =
      slot-set items index i ∙ ap (λ b. if b then none else slot items i) (sym (suc_test i index))

  slot-drop : (items : List (Option A)) (i : ℕ) → slot (drop 1 items) i ≡ slot items (suc i)
  slot-drop [] i = refl
  slot-drop (x ∷ items) i = refl

  -- What is left after a deletion: every item but the first has moved down by one, and the deleted
  -- one has become a NULL in their midst. So the item at index 0 is what is lost, also where
  -- another index was asked for.
  pub vector_get-delete :
      (room : Bool) (index i : ℕ) (v : Vector A)
      → IsVector v
      → index < v.total
      → (vector_get (delete room (pos index) v) (pos i)
          ≡ (if suc i == index then none else vector_get v (pos (suc i))))
        × IsVector (delete room (pos index) v)
  vector_get-delete room index i v ok h =
      let (items, still) = delete_lem room index v ok h in
      (
        vector_get_lem (delete room (pos index) v) i still
            ∙ ap (λ l. slot l i) items
            ∙ slot-drop (set v.items index none) i
            ∙ slot-set v.items index (suc i)
            ∙ ap (λ o. if suc i == index then none else o) (sym (vector_get_lem v (suc i) ok)),
        still,
      )
