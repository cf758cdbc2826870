-- ===== src/Buffer/Tests.antt =====
-- Runs of the buffer, and its theorems at concrete inputs.
use c_libp2p.Base.{◌≡◌, refl, List, [], ◌∷◌, true, false, some}
use c_libp2p.Buffer.{Buffer, read, write, peek}
use c_libp2p.Buffer.Fifo.{Call, fetch, look, store, call_all}

abbrev three : Buffer
three = record { buffer_size = 3; buffer = some (7 ∷ 8 ∷ 9 ∷ []) }

abbrev calls : List Call
calls = look 1 ∷ fetch 2 ∷ store true (5 ∷ 6 ∷ []) ∷ store false (4 ∷ []) ∷ fetch 9 ∷ []

calls_answers : (call_all calls three).0 ≡ (7 ∷ []) ∷ (7 ∷ 8 ∷ []) ∷ [] ∷ [] ∷ (9 ∷ 5 ∷ 6 ∷ []) ∷ []
unfolding read write peek
calls_answers = refl
