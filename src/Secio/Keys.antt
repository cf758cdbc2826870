-- ===== src/Secio/Keys.antt =====
-- secio/secio.c: the keys of a session. libp2p_secio_stretch_keys makes two of them from the shared
-- secret, by mbedtls' HMAC-SHA256, which is a parameter. The handshake then says which is whose.
use c_libp2p.Base.{
  ℕ, zero, suc, ◌+◌, ◌-◌, ◌*◌, List, [], ◌++◌, Option, none, some, min, codes, bytes_eq,
}
use c_libp2p.Base.{ℤ, pos, negsuc, Bool, false, ◌||◌, not, if◌then◌else◌, take, drop}
use c_libp2p.Transport.{Res, ok, failed, undefined, stuck, prepend}

-- struct StretchedKey, each array with its size but for the MAC key, whose size is also set later
pub record StretchedKey : Type 0 where
  pub iv : List ℕ
  pub cipher_key : List ℕ
  pub mac_key : List ℕ
  pub mac_size : ℕ

-- the sizes of the IV and of the key of a cipher
unfoldable pub cipher_sizes : List ℕ → Option (ℕ × ℕ)
cipher_sizes cipher =
    if bytes_eq cipher (codes "AES-128")
    then some (16, 16)
    else if bytes_eq cipher (codes "AES-256")
    then some (16, 32)
    else if bytes_eq cipher (codes "Blowfish")
    then some (8, 32)
    else none

abbrev pub hmac_size : ℕ
hmac_size = 20

abbrev pub result_size : ℕ → ℕ → ℕ
result_size iv_size cipher_size = 2 * (iv_size + cipher_size * hmac_size)

-- a key from the bytes at `temp`
abbrev pub key_at : ℕ → ℕ → List ℕ → StretchedKey
key_at iv_size cipher_size temp = record {
  iv = take iv_size temp;
  cipher_key = take cipher_size (drop iv_size temp);
  mac_key = take hmac_size (drop (iv_size + cipher_size) temp);
  mac_size = hmac_size;
}

-- two keys, one after the other
abbrev pub two_keys : ℕ → ℕ → Res (List ℕ) → Res (StretchedKey × StretchedKey)
two_keys iv_size cipher_size (ok result) = ok (
  key_at iv_size cipher_size result,
  key_at iv_size cipher_size (drop (iv_size + cipher_size + hmac_size) result),
)
two_keys iv_size cipher_size failed = failed
two_keys iv_size cipher_size undefined = undefined
two_keys iv_size cipher_size stuck = stuck

module _ (hmac : (key text : List ℕ) → List ℕ) where
  abbrev pub seed : List ℕ
  seed = codes "key expansion"

  -- `while (num_filled < result_size)`, with `left` bytes to go. A round fills a byte at least, so
  -- `left` rounds are enough.
  unfoldable pub fill_rounds : (secret : List ℕ) (fuel left : ℕ) (a_hash : List ℕ) → Res (List ℕ)
  fill_rounds secret fuel zero a_hash = ok []
  fill_rounds secret zero (suc n) a_hash = stuck
  fill_rounds secret (suc fuel) (suc n) a_hash =
      let rest = fill_rounds secret fuel (suc n - 32) (hmac secret a_hash) in
      prepend (take (min 32 (suc n)) (hmac secret (a_hash ++ seed))) rest

  abbrev pub stretched : (secret : List ℕ) → Option (ℕ × ℕ) → Res (StretchedKey × StretchedKey)
  stretched secret none = failed
  stretched secret (some (iv_size, cipher_size)) =
      let size = result_size iv_size cipher_size in
      two_keys iv_size cipher_size (fill_rounds secret size size (hmac secret seed))

  -- libp2p_secio_stretch_keys
  unfoldable pub stretch_keys : (cipher secret : List ℕ) → Res (StretchedKey × StretchedKey)
  stretch_keys cipher secret = stretched secret (cipher_sizes cipher)

-- the local and the remote key of a session, by the order of the peers
unfoldable pub assign_keys : ℤ → StretchedKey → StretchedKey → StretchedKey × StretchedKey
assign_keys (pos (suc n)) k1 k2 = (k1, k2)
assign_keys (pos zero) k1 k2 = (k2, k1)
assign_keys (negsuc n) k1 k2 = (k2, k1)

-- the size of the MAC key after libp2p_secio_make_mac_and_cipher has looked at the hash
unfoldable pub mac_size_of : List ℕ → ℕ → Option ℕ
mac_size_of chosen_hash mac_size =
    if bytes_eq chosen_hash (codes "SHA1")
    then some 40
    else if bytes_eq chosen_hash (codes "SHA512")
    then some 64
    else if bytes_eq chosen_hash (codes "SHA256")
    then some mac_size
    else none

-- `strcmp(chosen_cipher, "AES-128") || strcmp(chosen_cipher, "AES-256") == 0`
unfoldable pub takes_cipher : List ℕ → Bool
takes_cipher chosen_cipher =
    not (bytes_eq chosen_cipher (codes "AES-128")) || bytes_eq chosen_cipher (codes "AES-256")

-- libp2p_secio_make_mac_and_cipher
unfoldable pub make_mac_and_cipher :
    (chosen_hash chosen_cipher : List ℕ) → StretchedKey → Bool × StretchedKey
make_mac_and_cipher chosen_hash chosen_cipher k = elim (mac_size_of chosen_hash k.mac_size) [
  | none ↦ (false, k)
  | some n ↦ (takes_cipher chosen_cipher, record k { mac_size = n })
]
