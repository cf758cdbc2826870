-- ===== src/Streams.antt =====
-- The array of streams of a v1 session: how yamux_channel_new and yamux_stream_free of
-- yamux/stream.c use its slots. A slot points to memory of its own, and it matters when that
-- memory has been freed.
pub mod Reuse
mod Tests
use c_libp2p.Base.{ℕ, zero, suc, ◌+◌, ◌-◌, ◌%◌, ◌^◌, List, [], ◌∷◌, Option, none, some, length}
use c_libp2p.Base.{Bool, true, false, ◌==◌, ◌&&◌, if◌then◌else◌, get_elem?, set}
use c_libp2p.Transport.{Res, ok, undefined}

-- the memory that the pointer of a slot leads to
pub data Memory : Type 0 where
  never allocated freed : Memory

-- struct yamux_session_stream, with the id of its stream
pub record Slot : Type 0 where
  pub alive : Bool
  pub memory : Memory
  pub id : ℕ

-- the part of struct yamux_session that the slots belong to
pub record Table : Type 0 where
  pub slots : List Slot
  pub num_streams : ℕ
  pub cap_streams : ℕ
  pub next_id : ℕ
  pub accept_backlog : ℕ

-- the search for a dead stream below `cap_streams`
abbrev pub find_dead : ℕ → List Slot → Option ℕ
find_dead zero ss = none
find_dead (suc cap) [] = none
find_dead (suc cap) (s ∷ ss) =
    if s.alive then elim (find_dead cap ss) [ none ↦ none | some i ↦ some (suc i) ] else some 0

-- the search of yamux_stream_free
abbrev pub find_stream : ℕ → ℕ → List Slot → Option ℕ
find_stream id zero ss = none
find_stream id (suc cap) [] = none
find_stream id (suc cap) (s ∷ ss) =
    if s.alive && s.id == id
    then some 0
    else elim (find_stream id cap ss) [ none ↦ none | some i ↦ some (suc i) ]

-- a stream written into a slot
abbrev pub put : ℕ → ℕ → Table → Table
put i id t = record t {
  slots = set t.slots i (record { alive = true; memory = allocated; id = id });
  num_streams = t.num_streams + 1;
}

-- a dead slot used again: the new stream is written to the memory of the old one
abbrev pub reuse : ℕ → ℕ → Table → Res (Option ℕ) × Table
reuse i id t = elim (get_elem? t.slots i) [
  | none ↦ (undefined, t)
  | some s ↦ elim s.memory [
    | never ↦ (undefined, t)
    | allocated ↦ (ok (some id), put i id t)
    | freed ↦ (undefined, t)
  ]
]

-- the first slot that was never used
abbrev pub fresh : ℕ → Table → Res (Option ℕ) × Table
fresh id t =
    if t.cap_streams == t.accept_backlog
    then (ok none, t)
    else elim (get_elem? t.slots t.cap_streams) [
      | none ↦ (undefined, t)
      | some s ↦
          if s.alive
          then (ok none, t)
          else (ok (some id), record (put t.cap_streams id t) { cap_streams = t.cap_streams + 1 })
    ]

-- the id of a new stream: 0 stands for the next one
abbrev pub choose_id : ℕ → Table → ℕ × Table
choose_id id t =
    if id == 0 then (t.next_id, record t { next_id = (t.next_id + 2) % 2 ^ 32 }) else (id, t)

-- yamux_channel_new: the id of the stream, or NULL
unfoldable pub table_new_stream : ℕ → Table → Res (Option ℕ) × Table
table_new_stream id t =
    let chosen = choose_id id t in
    elim (if t.num_streams == t.cap_streams then none else find_dead t.cap_streams t.slots) [
      | some i ↦ reuse i chosen.0 chosen.1
      | none ↦ fresh chosen.0 chosen.1
    ]

-- yamux_stream_free, of the stream with this id
unfoldable pub table_free_stream : ℕ → Table → Table
table_free_stream id t = elim (find_stream id t.cap_streams t.slots) [
  | none ↦ t
  | some i ↦ record t {
    slots = set t.slots i (record { alive = false; memory = freed; id = id });
    num_streams = t.num_streams - 1;
    cap_streams = if i == t.cap_streams - 1 then t.cap_streams - 1 else t.cap_streams;
  }
]
