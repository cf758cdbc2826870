-- ===== src/Buffer/Fifo.antt =====
-- The buffer against the abstract view of it: a queue of bytes.
use c_libp2p.Base.{ℕ, ◌-◌, ◌<◌, ◌≡◌, refl, sym, ap, ap₂, ◌∙◌, List, [], ◌∷◌, ◌++◌, Option, none}
use c_libp2p.Base.{some, length, take, drop, arith, min, length-append, length-take, length-drop}
use c_libp2p.Base.{
  take-append-drop, append_assoc, append-nil, take_all, drop_all, Bool, true, false,
}
use c_libp2p.Base.{ltb, ◌==◌, if◌then◌else◌, Bool-cases, inl, inr}
use c_libp2p.Buffer.{Buffer, peek, shrink, read, write}

-- the bytes that the buffer holds
abbrev pub contents : Buffer → List ℕ
contents c = elim c.buffer [ none ↦ [] | some bs ↦ bs ]

-- `buffer_size` is the number of bytes there, and a buffer without bytes is NULL.
abbrev pub IsBuffer : Buffer → Type 0
IsBuffer c = elim c.buffer [
  | none ↦ c.buffer_size ≡ 0
  | some bs ↦ (length bs ≡ c.buffer_size) × (0 < c.buffer_size)
]

-- A call of one thread, in the order in which the lock was had. The Boolean of a write says that
-- there is memory.
pub data Call : Type 0 where
  fetch look : ℕ → Call
  store : Bool → List ℕ → Call

-- the bytes that a call returns, and the context after it
abbrev pub called : Call → Buffer → List ℕ × Buffer
called (fetch n) c = read n c
called (look n) c = (peek n c, c)
called (store room bytes) c = ([], (write room bytes c).1)

-- the same on a queue
abbrev pub queued : Call → List ℕ → List ℕ × List ℕ
queued (fetch n) q = (take n q, drop n q)
queued (look n) q = (take n q, q)
queued (store room bytes) q = ([], if room then q ++ bytes else q)

cut :
    (n size : ℕ) (bs : List ℕ)
    → length bs ≡ size
    → 0 < size
    → (if ltb 0 size then take (if ltb n size then n else size) bs else []) ≡ take n bs
cut n size bs e pos = elim (Bool-cases (ltb n size)) [
  | inl less ↦ let some_there : ltb 0 size ≡ true = ground arith in rw (some_there, less)
  | inr more ↦
      let some_there : ltb 0 size ≡ true = ground arith in
      rw (some_there, more) (take_all size bs (omega arith) ∙ sym (take_all n bs (ground arith)))
]

-- a context that holds `bs`
abbrev filled : ℕ → List ℕ → Buffer
filled size bs = record { buffer_size = size; buffer = some bs }

abbrev after_read : ℕ → Buffer → Buffer
after_read m c = if ltb 0 m then shrink m c else c

read_some :
    (n m size : ℕ) (bs : List ℕ)
    → length bs ≡ size
    → 0 < size
    → m ≡ min n size
    → (contents (after_read m (filled size bs)) ≡ drop n bs)
      × IsBuffer (after_read m (filled size bs))
read_some n m size bs e pos cut_off = elim (Bool-cases (ltb 0 m)) [
  | inr nothing ↦ let zero_bytes : n ≡ 0 = ground arith in rw (nothing, zero_bytes) (refl, (e, pos))
  | inl some_bytes ↦ elim (Bool-cases (ltb 0 (size - m))) [
    | inl more ↦
        let same : m ≡ n = ground arith in
        let left : length (drop m bs) ≡ size - m = omega (arith, length-drop m bs) in
        rw (some_bytes, more) (ap (λ k. drop k bs) same, (left, ground arith))
    | inr all ↦ rw (some_bytes, all) (sym (drop_all n bs (ground arith)), refl)
  ]
]

not_empty : (b : ℕ) (bytes : List ℕ) → (length (b ∷ bytes) == 0) ≡ false
not_empty b bytes = ground arith

called_parts :
    (k : Call) (size : ℕ) (o : Option (List ℕ))
    → let c : Buffer = record { buffer_size = size; buffer = o } in
      IsBuffer c
      → ((called k c).0 ≡ (queued k (contents c)).0)
        × (contents (called k c).1 ≡ (queued k (contents c)).1)
        × IsBuffer (called k c).1
unfolding read peek write
called_parts (look n) size none h = (sym (take_all n [] (omega arith)), refl, h)
called_parts (look n) size (some bs) (e, pos) = (cut n size bs e pos, refl, (e, pos))
called_parts (fetch n) size none h =
    (sym (take_all n [] (omega arith)), sym (drop_all n [] (omega arith)), h)
called_parts (fetch n) size (some bs) (e, pos) =
    let got = cut n size bs e pos in
    let out = read_some n (length (take n bs)) size bs e pos (omega (arith, length-take n bs)) in
    rw got (refl, out.0, out.1)
called_parts (store true []) size o h = (refl, sym (append-nil _), h)
called_parts (store false []) size o h = (refl, refl, h)
called_parts (store false (b ∷ bytes)) size o h = rw (not_empty b bytes) (refl, refl, h)
called_parts (store true (b ∷ bytes)) size none h =
    rw (not_empty b bytes) (refl, refl, (omega arith, omega arith))
called_parts (store true (b ∷ bytes)) size (some bs) (e, pos) =
    rw (not_empty b bytes) (refl, refl, (omega (arith, length-append bs (b ∷ bytes)), omega arith))

called_lem :
    (k : Call) (c : Buffer)
    → IsBuffer c
    → ((called k c).0 ≡ (queued k (contents c)).0)
      × (contents (called k c).1 ≡ (queued k (contents c)).1)
      × IsBuffer (called k c).1
called_lem k c h = called_parts k c.buffer_size c.buffer h

-- Calls one after the other: what each returns, and the end.
abbrev pub call_all : List Call → Buffer → List (List ℕ) × Buffer
call_all [] c = ([], c)
call_all (k ∷ ks) c = let rest = call_all ks (called k c).1 in ((called k c).0 ∷ rest.0, rest.1)

abbrev pub queue_all : List Call → List ℕ → List (List ℕ) × List ℕ
queue_all [] q = ([], q)
queue_all (k ∷ ks) q = let rest = queue_all ks (queued k q).1 in ((queued k q).0 ∷ rest.0, rest.1)

-- the bytes that the fetches return, and those that the stores bring, in order
abbrev pub fetched : List Call → Buffer → List ℕ
fetched [] c = []
fetched (fetch n ∷ ks) c = (read n c).0 ++ fetched ks (read n c).1
fetched (look n ∷ ks) c = fetched ks c
fetched (store room bytes ∷ ks) c = fetched ks (write room bytes c).1

abbrev pub stored : List Call → List ℕ
stored [] = []
stored (fetch n ∷ ks) = stored ks
stored (look n ∷ ks) = stored ks
stored (store room bytes ∷ ks) = (if room then bytes else []) ++ stored ks

-- No byte is lost, doubled or overtaken: what the readers fetched, and then what is left, is what
-- was there, and then what the writers stored.
pub fetched-stored :
    (ks : List Call) (c : Buffer)
    → IsBuffer c
    → fetched ks c ++ contents (call_all ks c).1 ≡ contents c ++ stored ks
fetched-stored [] c h = sym (append-nil (contents c))
fetched-stored (look n ∷ ks) c h = fetched-stored ks c h
fetched-stored (fetch n ∷ ks) c h =
    let (answer, left, ok) = called_lem (fetch n) c h in
    append_assoc (read n c).0 (fetched ks (read n c).1) _
    ∙ ap (λ l. (read n c).0 ++ l) (fetched-stored ks (read n c).1 ok)
    ∙ ap₂ (λ a l. a ++ (l ++ stored ks)) answer left
    ∙ sym (append_assoc (take n (contents c)) (drop n (contents c)) (stored ks))
    ∙ ap (λ l. l ++ stored ks) (take-append-drop n (contents c))
fetched-stored (store true bytes ∷ ks) c h =
    let (answer, left, ok) = called_lem (store true bytes) c h in
    fetched-stored ks (write true bytes c).1 ok
    ∙ ap (λ l. l ++ stored ks) left
    ∙ append_assoc (contents c) bytes (stored ks)
fetched-stored (store false bytes ∷ ks) c h =
    let (answer, left, ok) = called_lem (store false bytes) c h in
    fetched-stored ks (write false bytes c).1 ok ∙ ap (λ l. l ++ stored ks) left
