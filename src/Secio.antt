-- ===== src/Secio.antt =====
-- secio/secio.c: how two peers settle on a curve, a cipher and a hash; Keys and Packets are what
-- follows in a session. The hash function libp2p_crypto_hashing_sha256, which calls mbedtls, is a
-- parameter. Memory is taken to be there, and the log is left out.
pub mod Order
pub mod Choice
pub mod Agreement
pub mod Keys
pub mod Stretch
pub mod Packets
pub mod Exchange
pub mod Mirror
pub mod Proposal
pub mod Offer
mod Tests
use c_libp2p.Base.{ℕ, zero, suc, List, [], ◌∷◌, ◌++◌, Option, none, some, ℤ, pos, negsuc}
use c_libp2p.Base.{
  Bool, true, false, ltb, ◌||◌, not, if◌then◌else◌, codes, c_string, tokens, bytes_eq,
}
use c_libp2p.Transport.{Res, ok, failed, undefined, M, ◌>>=◌, ◌>>◌, guard}

-- struct Propose
pub record Propose : Type 0 where
  pub rand : List ℕ
  pub public_key : List ℕ
  pub exchanges : List ℕ
  pub ciphers : List ℕ
  pub hashes : List ℕ

-- libp2p_secio_bytes_compare: `none` is a read behind the end of an array.
unfoldable pub bytes_compare : List ℕ → List ℕ → ℕ → Option ℤ
bytes_compare a b zero = some (pos 0)
bytes_compare (x ∷ a) (y ∷ b) (suc length) =
    if ltb x y then some (negsuc 0) else if ltb y x then some (pos 1) else bytes_compare a b length
bytes_compare [] b (suc length) = none
bytes_compare (x ∷ a) [] (suc length) = none

-- the list of names in a text: libp2p_secio_split_list, with the token separator `,`
abbrev pub comma : ℕ
comma = 44

unfoldable pub split_list : List ℕ → List (List ℕ)
split_list list = tokens comma (c_string list)

-- the inner loop of libp2p_secio_select_best
unfoldable pub in_follower : List ℕ → List (List ℕ) → Bool
in_follower name [] = false
in_follower name (f ∷ follower) = bytes_eq name f || in_follower name follower

-- its outer loop
unfoldable pub first_match : List (List ℕ) → List (List ℕ) → Res (List ℕ)
first_match [] follower = failed
first_match (name ∷ lead) follower =
    if in_follower name follower then ok name else first_match lead follower

-- the shortcut, which reads the head of the list without a look at it
abbrev pub head_name : List (List ℕ) → Res (List ℕ)
head_name [] = undefined
head_name (name ∷ names) = ok name

-- libp2p_secio_select_best
unfoldable pub select_best : ℤ → List ℕ → List ℕ → Res (List ℕ)
select_best (pos zero) local remote = head_name (split_list local)
select_best (pos (suc n)) local remote = first_match (split_list local) (split_list remote)
select_best (negsuc n) local remote = first_match (split_list remote) (split_list local)

-- what struct SessionContext keeps of it: chosen_curve, chosen_cipher and chosen_hash
pub record Chosen : Type 0 where
  pub curve : Option (List ℕ)
  pub cipher : Option (List ℕ)
  pub hash : Option (List ℕ)

-- a value that is computed without the session
abbrev pub given : {A : Type 0} → Res A → M Chosen A
given r s = (r, s)

-- a store through a pointer into the session
abbrev pub store_field : (Chosen → Chosen) → M Chosen (Unit {0})
store_field f s = (ok tt, f s)

module _ (sha256 : List ℕ → List ℕ) where
  -- libp2p_secio_hash
  unfoldable pub hash : (key nonce : List ℕ) → List ℕ
  hash key nonce = sha256 (key ++ nonce)

  -- libp2p_secio_determine_order
  unfoldable pub determine_order : (remote local : Propose) → Option ℤ
  determine_order remote local =
      bytes_compare (hash remote.public_key local.rand) (hash local.public_key remote.rand) 32

  abbrev pub ordered : Option ℤ → Res ℤ
  ordered none = undefined
  ordered (some order) = ok order

  -- the part of libp2p_secio_handshake that chooses the algorithms
  unfoldable pub choose_algorithms : (propose_in propose_out : Propose) → M Chosen (Unit {0})
  choose_algorithms propose_in propose_out = do
    order ← given (ordered (determine_order propose_in propose_out))
    curve ← given (select_best order propose_out.exchanges propose_in.exchanges)
    store_field (λ s. record s { curve = some curve })
    cipher ← given (select_best order propose_out.ciphers propose_in.ciphers)
    store_field (λ s. record s { cipher = some cipher })
    hash ← given (select_best order propose_out.hashes propose_in.hashes)
    store_field (λ s. record s { hash = some hash })
