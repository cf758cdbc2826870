-- ===== src/Vector/Tests.antt =====
-- Runs of the vector, and its theorems at concrete inputs.
use c_libp2p.Base.{ℕ, ◌≡◌, refl, [], ◌∷◌, none, some, true, pos, arith}
use c_libp2p.Base.{if◌then◌else◌, ◌==◌}
use c_libp2p.Vector.{Vector, vector_get, delete}
use c_libp2p.Vector.Slots.{IsVector}
use c_libp2p.Vector.Deletion.{vector_get-delete}

abbrev letters : Vector ℕ
letters = record { capacity = 4; total = 3; items = some 10 ∷ some 20 ∷ some 30 ∷ [] }

vector_get-delete_example :
    (vector_get (delete true (pos 2) letters) (pos 1)
      ≡ (if 2 == 2 then none else vector_get letters (pos 2)))
    × IsVector (delete true (pos 2) letters)
vector_get-delete_example =
    vector_get-delete true 2 1 letters (refl, omega arith, omega arith) (omega arith)

delete_last : (delete true (pos 2) letters).items ≡ some 20 ∷ none ∷ []
unfolding delete
delete_last = refl
