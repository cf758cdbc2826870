-- ===== src/Streams/Tests.antt =====
-- A session with three streams.
use c_libp2p.Base.{ℕ, ◌≡◌, refl, [], ◌∷◌, some, true, false, arith}
use c_libp2p.Transport.{ok, undefined}
use c_libp2p.Streams.{Slot, Table, allocated, never, table_new_stream, table_free_stream}
use c_libp2p.Streams.Reuse.{table_new_stream-table_free_stream}

abbrev used : ℕ → Slot
used id = record { alive = true; memory = allocated; id = id }

abbrev unused : Slot
unused = record { alive = false; memory = never; id = 0 }

abbrev three_streams : Table
three_streams = record {
  slots = used 1 ∷ used 3 ∷ used 5 ∷ unused ∷ [];
  num_streams = 3;
  cap_streams = 3;
  next_id = 7;
  accept_backlog = 4;
}

table_new_stream-table_free_stream_example :
    (table_new_stream 0 (table_free_stream 3 three_streams)).0 ≡ undefined
table_new_stream-table_free_stream_example =
    table_new_stream-table_free_stream 3 0 1 three_streams (refl, (refl, (refl, tt))) refl
      (omega arith) refl (omega arith)

fourth_stream : (table_new_stream 0 three_streams).0 ≡ ok (some 7)
unfolding table_new_stream
fourth_stream = refl

after_the_last : (table_new_stream 0 (table_free_stream 5 three_streams)).0 ≡ ok (some 7)
unfolding table_new_stream table_free_stream
after_the_last = refl
