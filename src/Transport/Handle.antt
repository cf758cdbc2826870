-- ===== src/Transport/Handle.antt =====
-- A stream as a handle: what may be done with it before it is closed, and nothing after. The rules
-- by which runs that end with the stream open, or closed on failure, are put together.
use c_libp2p.Base.{ℕ, zero, suc, ◌-◌, ◌⊎◌, inl, List, Option, none, some, length}
use c_libp2p.Base.{Bool, true, false, if◌then◌else◌}
use c_libp2p.Transport.{Transport, Res, ok, failed, undefined, stuck, M, ◌>>=◌, go_on, pure, guard}
use c_libp2p.Transport.{
  recover, attempt, forever, read_rounds, read_full, read_byte, write_full, null, prepend,
}

-- Only of a stream that is `Alive` is anything known after a call, so that nothing can be shown of
-- a run that calls a stream which is closed.
pub record IsHandle (t : Transport) (Alive Closed : t.State → Type 0) : Type 0 where
  pub read-Alive : (s : t.State) (n : ℕ) → Alive s → Alive (t.read s n).1
  pub write-Alive : (s : t.State) (bs : List ℕ) → Alive s → Alive (t.write s bs).1
  pub close-Closed : (s : t.State) → Alive s → Closed (t.close s)

module _ {S : Type 0} (Open Over : S → Type 0) where
  -- a result that is not a value may leave the end behind
  abbrev pub After : {A : Type 0} → Res A → S → Type 0
  After (ok a) s = Open s
  After failed s = Open s ⊎ Over s
  After undefined s = Open s ⊎ Over s
  After stuck s = Open s ⊎ Over s

  pub record Safe {A : Type 0} (m : M S A) : Type 0 where
    pub run : (s : S) → Open s → After (m s).0 (m s).1

  pub After-Open : {A : Type 0} (r : Res A) {s : S} → Open s → After r s
  After-Open (ok a) h = h
  After-Open failed h = inl h
  After-Open undefined h = inl h
  After-Open stuck h = inl h

  pub After-Sane : {A : Type 0} (r : Res A) {s : S} → After r s → Open s ⊎ Over s
  After-Sane (ok a) h = inl h
  After-Sane failed h = h
  After-Sane undefined h = h
  After-Sane stuck h = h

module _ {S : Type 0} (Open : S → Type 0) where
  -- a run that leaves the stream open whatever it returns
  pub record Quiet {A : Type 0} (m : M S A) : Type 0 where
    pub run : (s : S) → Open s → Open (m s).1

module _ {S : Type 0} {Open Over : S → Type 0} where
  pub Quiet-Safe : {A : Type 0} {m : M S A} → Quiet Open m → Safe Open Over m
  Quiet-Safe {A} {m} q = record { run = λ s h. After-Open Open Over (m s).0 (q.run s h) }

  pub Safe-pure : {A : Type 0} (a : A) → Safe Open Over (pure a)
  Safe-pure a = record { run = λ s h. h }

  pub Safe-bind :
      {A B : Type 0} {m : M S A} {f : A → M S B}
      → Safe Open Over m
      → ((a : A) → Safe Open Over (f a))
      → Safe Open Over (m >>= f)
  Safe-bind {A} {B} {m} {f} safe k = record { run = λ s h. go (m s).0 (m s).1 (safe.run s h) }
    where
      go :
          (r : Res A) (s : S)
          → After Open Over r s
          → After Open Over (go_on r f s).0 (go_on r f s).1
      go (ok a) s h = (k a).run s h
      go failed s h = h
      go undefined s h = h
      go stuck s h = h

  -- a run whose result is not looked at
  pub Safe-then :
      {A B : Type 0} {m : M S A} (b : B) → Safe Open Over m → Safe Open Over (m >>= λ a. pure b)
  Safe-then b safe = Safe-bind safe (λ a. Safe-pure b)

  pub Safe-if :
      {A : Type 0} (b : Bool) {m k : M S A}
      → Safe Open Over m
      → Safe Open Over k
      → Safe Open Over (if b then m else k)
  Safe-if true hm hk = hm
  Safe-if false hm hk = hk

  pub Safe-forever :
      {A : Type 0} {body : M S (Option A)}
      → Safe Open Over body
      → (fuel : ℕ) → Safe Open Over (forever fuel body)
  unfolding forever
  Safe-forever safe zero = record { run = λ s h. inl h }
  Safe-forever {A} {body} safe (suc fuel) =
      let rest = Safe-forever safe fuel in Safe-bind safe (again rest)
    where
      again :
          Safe Open Over (forever fuel body)
          → (o : Option A) → Safe Open Over (elim o [ none ↦ forever fuel body | some a ↦ pure a ])
      again rest none = rest
      again rest (some a) = record { run = λ s h. h }

module _ {S : Type 0} {Open : S → Type 0} where
  pub Quiet-bind :
      {A B : Type 0} {m : M S A} {f : A → M S B}
      → Quiet Open m
      → ((a : A) → Quiet Open (f a))
      → Quiet Open (m >>= f)
  Quiet-bind {A} {B} {m} {f} quiet k = record { run = λ s h. go (m s).0 (m s).1 (quiet.run s h) }
    where
      go : (r : Res A) (s : S) → Open s → Open (go_on r f s).1
      go (ok a) s h = (k a).run s h
      go failed s h = h
      go undefined s h = h
      go stuck s h = h

  pub Quiet-pure : {A : Type 0} (a : A) → Quiet Open (pure a)
  Quiet-pure a = record { run = λ s h. h }

  pub Quiet-guard : (b : Bool) → Quiet Open (guard b)
  Quiet-guard true = record { run = λ s h. h }
  Quiet-guard false = record { run = λ s h. h }

  pub Quiet-recover : {A : Type 0} {m : M S A} → Quiet Open m → Quiet Open (recover m)
  Quiet-recover q = record { run = λ s h. q.run s h }

  pub Quiet-attempt : {A : Type 0} {m : M S A} → Quiet Open m → Quiet Open (attempt m)
  Quiet-attempt q = record { run = λ s h. q.run s h }

  pub Quiet-if :
      {A : Type 0} (b : Bool) {m k : M S A}
      → Quiet Open m
      → Quiet Open k
      → Quiet Open (if b then m else k)
  Quiet-if true hm hk = hm
  Quiet-if false hm hk = hk

module _ {t : Transport} {Alive Closed : t.State → Type 0} (handle : IsHandle t Alive Closed) where
  open t use {State, read}

  read_rounds-Alive : (fuel n : ℕ) (s : State) → Alive s → Alive (read_rounds t fuel n s).1
  unfolding read_rounds
  read_rounds-Alive fuel zero s h = h
  read_rounds-Alive zero (suc n) s h = h
  read_rounds-Alive (suc fuel) (suc n) s h =
      let got : List ℕ = (read s (suc n)).0 in
      let s' : State = (read s (suc n)).1 in
      let more : Res (List ℕ) × State = read_rounds t fuel (suc n - length got) s' in
      let next : Alive more.1 =
        read_rounds-Alive fuel (suc n - length got) s' (handle.read-Alive s (suc n) h) in
      either (failed, s') (prepend got more.0, more.1) (null got) (handle.read-Alive s (suc n) h)
        next
    where
      either :
          (x y : Res (List ℕ) × State) (b : Bool)
          → Alive x.1
          → Alive y.1
          → Alive (if b then x else y).1
      either x y true hx hy = hx
      either x y false hx hy = hy

  pub read_full-Quiet : (n : ℕ) → Quiet Alive (read_full t n)
  unfolding read_full
  read_full-Quiet n = record { run = λ s h. read_rounds-Alive n n s h }

  pub read_byte-Quiet : Quiet Alive (read_byte t)
  unfolding read_byte
  read_byte-Quiet = record { run = λ s h. handle.read-Alive s 1 h }

  pub write_full-Quiet : (bs : List ℕ) → Quiet Alive (write_full t bs)
  unfolding write_full
  write_full-Quiet bs = record { run = λ s h. handle.write-Alive s bs h }
