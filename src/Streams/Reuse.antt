-- ===== src/Streams/Reuse.antt =====
-- Streams opened one after the other, and a slot that is used again.
use c_libp2p.Base.{ℕ, zero, suc, ◌+◌, ◌-◌, ◌≤◌, ◌<◌, ◌≡◌, refl, ap, ◌∙◌, List, []}
use c_libp2p.Base.{◌∷◌, Option, none, some, length, All, take, arith, get_elem?, set}
use c_libp2p.Base.{
  true, false, ◌==◌, if◌then◌else◌, if_true, if_false, get_elem?-set_self, Bool-cases, inl, inr,
}
use c_libp2p.Transport.{Res, ok, undefined}
use c_libp2p.Streams.{Slot, Table, allocated, freed, never, find_dead, find_stream}
use c_libp2p.Streams.{put, reuse, fresh, choose_id, table_new_stream, table_free_stream}

-- Every slot below the bound has a stream.
abbrev pub AllAlive : ℕ → List Slot → Type 0
AllAlive cap ss = All (λ s. s.alive ≡ true) (take cap ss)

abbrev dead_slot : ℕ → Slot
dead_slot id = record { alive = false; memory = freed; id = id }

find_dead-set :
    (cap i : ℕ) (ss : List Slot) (d : Slot)
    → d.alive ≡ false
    → AllAlive cap ss
    → i < cap
    → cap ≤ length ss
    → find_dead cap (set ss i d) ≡ some i
find_dead-set zero i ss d dead alive h len = absurd (omega arith)
find_dead-set (suc cap) i [] d dead alive h len = absurd (omega arith)
find_dead-set (suc cap) zero (s ∷ ss) d dead alive h len = if_false d.alive _ _ dead
find_dead-set (suc cap) (suc i) (s ∷ ss) d dead (first, alive) h len =
    if_true s.alive _ _ first
    ∙ ap (λ o. elim o as (λ x. Option ℕ) [ none ↦ none | some i ↦ some (suc i) ])
        (find_dead-set cap i ss d dead alive (omega arith) (omega arith))

-- the table after a stream that is not in the last slot was freed
abbrev freed_table : ℕ → ℕ → Table → Table
freed_table id i t = record t {
  slots = set t.slots i (dead_slot id);
  num_streams = t.num_streams - 1;
}

table_free_stream_lem :
    (id i : ℕ) (t : Table)
    → find_stream id t.cap_streams t.slots ≡ some i
    → (i == t.cap_streams - 1) ≡ false
    → table_free_stream id t ≡ freed_table id i t
unfolding table_free_stream
table_free_stream_lem id i t found not_last =
    ap
      (λ o. elim o as (λ x. Table) [
        | none ↦ t
        | some i ↦ record t {
          slots = set t.slots i (dead_slot id);
          num_streams = t.num_streams - 1;
          cap_streams = if i == t.cap_streams - 1 then t.cap_streams - 1 else t.cap_streams;
        }
      ])
      found
    ∙ ap
        (λ b. record (freed_table id i t) {
          cap_streams = if b then t.cap_streams - 1 else t.cap_streams;
        })
        not_last

-- what is done with the slot that was found
abbrev reused : ℕ → ℕ → Table → Option Slot → Res (Option ℕ) × Table
reused i id t o = elim o [
  | none ↦ (undefined, t)
  | some s ↦ elim s.memory [
    | never ↦ (undefined, t)
    | allocated ↦ (ok (some id), put i id t)
    | freed ↦ (undefined, t)
  ]
]

reuse-freed :
    (i id : ℕ) (t : Table) (s : Slot)
    → get_elem? t.slots i ≡ some s
    → s.memory ≡ freed
    → (reuse i id t).0 ≡ undefined
reuse-freed i id t s there gone =
    ap (λ o. (reused i id t o).0) there
    ∙ ap (λ m. (reused i id t (some (record s { memory = m }))).0) gone

slots-choose_id : (id : ℕ) (t : Table) → (choose_id id t).1.slots ≡ t.slots
slots-choose_id id t = elim (Bool-cases (id == 0)) [
  | inl zero_id ↦ rw zero_id refl
  | inr other ↦ rw other refl
]

-- what yamux_channel_new does with the outcome of its search
abbrev placed : ℕ → Table → Option ℕ → Res (Option ℕ) × Table
placed id t o = elim o [
  | some i ↦ reuse i (choose_id id t).0 (choose_id id t).1
  | none ↦ fresh (choose_id id t).0 (choose_id id t).1
]

-- In a table that is full up to `cap_streams`, freeing a stream that is not in the last slot leaves
-- a dead slot that points to freed memory; the next new stream, whatever its id, takes that slot
-- and writes to the freed memory.
pub table_new_stream-table_free_stream :
    (id id' i : ℕ) (t : Table)
    → AllAlive t.cap_streams t.slots
    → t.num_streams ≡ t.cap_streams
    → t.cap_streams ≤ length t.slots
    → find_stream id t.cap_streams t.slots ≡ some i
    → i + 1 < t.cap_streams
    → (table_new_stream id' (table_free_stream id t)).0 ≡ undefined
unfolding table_new_stream
table_new_stream-table_free_stream id id' i t alive full len found inside =
    let not_last : (i == t.cap_streams - 1) ≡ false = ground arith in
    let fewer : (t.num_streams - 1 == t.cap_streams) ≡ false = ground arith in
    let dead = find_dead-set t.cap_streams i t.slots (dead_slot id) refl alive (omega arith) len in
    let there = get_elem?-set_self t.slots i (dead_slot id) (omega arith) in
    let u : Table = freed_table id i t in
    ap (λ v. (table_new_stream id' v).0) (table_free_stream_lem id i t found not_last)
    ∙ ap (λ o. (placed id' u o).0) (if_false (t.num_streams - 1 == t.cap_streams) _ _ fewer ∙ dead)
    ∙ reuse-freed i (choose_id id' u).0 (choose_id id' u).1 (dead_slot id)
        (ap (λ ss. get_elem? ss i) (slots-choose_id id' u) ∙ there) refl
