-- ===== src/Transport.antt =====
-- `struct Libp2pV2Stream` (v2/include/libp2p/net/tcp.h): the byte stream that the protocols of v2
-- are written over, as an interface. A user of it may assume the three operations alone; what a
-- protocol needs of the bytes that they carry is the record `Reliable`.
pub mod Wire
pub mod ReadFull
pub mod Triple
pub mod Run
pub mod Handle
pub mod Door
use c_libp2p.Base.{ℕ, zero, suc, ◌-◌, ◌≤◌, ◌<◌, ◌≡◌, ◌≢◌, List, [], ◌∷◌, ◌++◌, length, Option}
use c_libp2p.Base.{none, some, ◌==◌, Bool, true, false, if◌then◌else◌}

-- What a C function of the protocols comes back with. `undefined` is no return value: the run has
-- reached behaviour that C does not define. Nor is `stuck`: the fuel of a loop of the model is used up.
pub data Res (A : Type 0) : Type 0 where
  ok : A → Res A
  failed undefined stuck : Res A

-- A function that calls a stream with state `S`. What it did to the stream is kept on failure too.
abbrev pub M : Type 0 → Type 0 → Type 0
M S A = S → Res A × S

abbrev pub go_on : {S A B : Type 0} → Res A → (A → M S B) → M S B
go_on (ok a) f s = f a s
go_on failed f s = (failed, s)
go_on undefined f s = (undefined, s)
go_on stuck f s = (stuck, s)

infixl 5 ◌>>=◌ ◌>>◌
abbrev pub ◌>>=◌ : {S A B : Type 0} → M S A → (A → M S B) → M S B
◌>>=◌ m f s = go_on (m s).0 f (m s).1

abbrev pub ◌>>◌ : {S B : Type 0} → M S (Unit {0}) → M S B → M S B
m >> k = m >>= λ _. k

abbrev pub pure : {S A : Type 0} → A → M S A
pure a s = (ok a, s)

abbrev pub fail : {S A : Type 0} → M S A
fail s = (failed, s)

-- `if (!test) return 0;`
abbrev pub guard : {S : Type 0} → Bool → M S (Unit {0})
guard true s = (ok tt, s)
guard false s = (failed, s)

-- a call whose result the code does not look at
abbrev pub attempt : {S A : Type 0} → M S A → M S (Unit {0})
attempt m s = (ok tt, (m s).1)

abbrev pub recovered : {A : Type 0} → Res A → Res (Option A)
recovered (ok a) = ok (some a)
recovered failed = ok none
recovered undefined = undefined
recovered stuck = stuck

-- a call whose failure the code tests for
abbrev pub recover : {S A : Type 0} → M S A → M S (Option A)
recover m s = (recovered (m s).0, (m s).1)

-- `for (;;) { ... }`, with `fuel` rounds at most: `none` is `continue`, a value is `return`.
unfoldable pub forever : {S A : Type 0} → ℕ → M S (Option A) → M S A
forever zero body = λ s. (stuck, s)
forever (suc fuel) body =
    let again = forever fuel body in body >>= λ o. elim o [ none ↦ again | some a ↦ pure a ]

abbrev pub prepend : List ℕ → Res (List ℕ) → Res (List ℕ)
prepend xs (ok ys) = ok (xs ++ ys)
prepend xs failed = failed
prepend xs undefined = undefined
prepend xs stuck = stuck

-- `n <= 0 || n != total` is a failure.
abbrev pub took : Option ℕ → ℕ → Res (Unit {0})
took none total = failed
took (some n) total = if n == 0 then failed else if n == total then ok tt else failed

-- `read s n` is the call `stream->read(stream, buf, n)`: the bytes put into `buf`, none if the
-- call returned 0 or less. `write s bs` is `stream->write(stream, bs, size)`: the number that the
-- call returned, `none` for a negative one.
pub record Transport : Type 1 where
  pub State : Type 0
  pub read : State → ℕ → List ℕ × State
  pub write : State → List ℕ → Option ℕ × State
  pub close : State → State

-- A stream that delivers what its peer sent, in order, in pieces of a size of its own choice, and
-- that takes every write whole. `pending s` is what can still be read, `sent s` what was written.
pub record Reliable (t : Transport) : Type 1 where
  pub pending : t.State → List ℕ
  pub sent : t.State → List ℕ
  pub Usable : t.State → Type 0
  pub read_pos : (s : t.State) (n : ℕ) → Usable s → pending s ≢ [] → 0 < n → (t.read s n).0 ≢ []
  pub read_le : (s : t.State) (n : ℕ) → Usable s → length (t.read s n).0 ≤ n
  pub read_front :
      (s : t.State) (n : ℕ) → Usable s → pending s ≡ (t.read s n).0 ++ pending (t.read s n).1
  pub sent-read : (s : t.State) (n : ℕ) → Usable s → sent (t.read s n).1 ≡ sent s
  pub read-Usable : (s : t.State) (n : ℕ) → Usable s → Usable (t.read s n).1
  pub write_all :
      (s : t.State) (bs : List ℕ) → Usable s → bs ≢ [] → (t.write s bs).0 ≡ some (length bs)
  pub sent-write :
      (s : t.State) (bs : List ℕ) → Usable s → bs ≢ [] → sent (t.write s bs).1 ≡ sent s ++ bs
  pub pending-write : (s : t.State) (bs : List ℕ) → Usable s → pending (t.write s bs).1 ≡ pending s
  pub write-Usable : (s : t.State) (bs : List ℕ) → Usable s → Usable (t.write s bs).1

abbrev pub null : List ℕ → Bool
null [] = true
null (x ∷ xs) = false

abbrev pub first_byte : List ℕ → Res ℕ
first_byte [] = failed
first_byte (b ∷ bs) = ok b

module _ (t : Transport) where
  open t use {State, read, write}

  -- `while (total < len) { ret = read(buf + total, len - total); if (ret <= 0) return 0; ... }`:
  -- the bytes read, or a failure where a read failed. Every round reads a byte at least, so `len`
  -- rounds are enough.
  pub read_rounds : ℕ → ℕ → M State (List ℕ)
  read_rounds fuel zero s = (ok [], s)
  read_rounds zero (suc n) s = (failed, s)
  read_rounds (suc fuel) (suc n) s =
      let (got, s') = read s (suc n) in
      let more = read_rounds fuel (suc n - length got) s' in
      if null got then (failed, s') else (prepend got more.0, more.1)

  -- One byte, as `stream->read(stream, &byte, 1)` fills it.
  unfoldable pub read_byte : M State ℕ
  read_byte s = let (got, s') = read s 1 in (first_byte got, s')

  unfoldable pub read_full : ℕ → M State (List ℕ)
  unfolding read_rounds
  read_full n = read_rounds n n

  -- a write whose caller wants all of the bytes taken
  unfoldable pub write_full : List ℕ → M State (Unit {0})
  write_full bs s = let (n, s') = write s bs in (took n (length bs), s')
