-- ===== src/Secio/Packets.antt =====
-- secio/secio.c: the packets of an open session, libp2p_secio_encrypt and libp2p_secio_decrypt. The
-- two functions of mbedtls that they use are the parameter `Engine`.
use c_libp2p.Base.{ℕ, ◌-◌, List, [], ◌∷◌, ◌++◌, Option, none, some, length, take, drop}
use c_libp2p.Base.{ℤ, Bool, ltb, leb, ◌||◌, if◌then◌else◌, bytes_eq, codes}
use c_libp2p.Transport.{Res, ok, failed, undefined, stuck, M, ◌>>=◌, ◌>>◌, pure, fail, guard}
use c_libp2p.Secio.Keys.{StretchedKey, stretch_keys, assign_keys, make_mac_and_cipher}

-- what mbedtls_aes_crypt_ctr keeps between calls: the offset in the block, the counter, for which
-- the IV of a key is used, and the block
pub record Counter : Type 0 where
  pub nonce_offset : ℕ
  pub iv : List ℕ
  pub stream_block : List ℕ

-- the test of the hash in libp2p_secio_handshake
unfoldable pub known_hash : List ℕ → Bool
known_hash chosen_hash =
    bytes_eq chosen_hash (codes "SHA1")
    || bytes_eq chosen_hash (codes "SHA512")
    || bytes_eq chosen_hash (codes "SHA256")

-- mbedtls_aes_setkey_enc, whether it takes a key; mbedtls_aes_crypt_ctr, of the key that was set, a
-- counter and a text; and the HMAC of a key and a text
pub record Engine : Type 0 where
  pub takes_key : List ℕ → Bool
  pub ctr : List ℕ → Counter → List ℕ → Option (List ℕ × Counter)
  pub hmac : List ℕ → List ℕ → List ℕ

-- the part of struct SessionContext that an open session uses
pub record SecioSession : Type 0 where
  pub local_key : StretchedKey
  pub remote_key : StretchedKey
  pub encode_offset : ℕ
  pub encode_block : List ℕ
  pub decode_offset : ℕ
  pub decode_block : List ℕ

abbrev pub zeros : List ℕ
zeros = 0 ∷ 0 ∷ 0 ∷ 0 ∷ 0 ∷ 0 ∷ 0 ∷ 0 ∷ 0 ∷ 0 ∷ 0 ∷ 0 ∷ 0 ∷ 0 ∷ 0 ∷ 0 ∷ []

-- libp2p_secio_initialize_crypto, of a session with these keys
abbrev pub initialize_crypto : StretchedKey → StretchedKey → SecioSession
initialize_crypto k k' = record {
  local_key = k;
  remote_key = k';
  encode_offset = 0;
  encode_block = zeros;
  decode_offset = 0;
  decode_block = zeros;
}

abbrev pub start : ℤ → List ℕ → List ℕ → Res (StretchedKey × StretchedKey) → Res SecioSession
start order chosen_hash chosen_cipher (ok (k1, k2)) =
    let (mine, theirs) = assign_keys order k1 k2 in
    if known_hash chosen_hash
    then ok (
        initialize_crypto (make_mac_and_cipher chosen_hash chosen_cipher mine).1
          (make_mac_and_cipher chosen_hash chosen_cipher theirs).1)
    else failed
start order chosen_hash chosen_cipher failed = failed
start order chosen_hash chosen_cipher undefined = undefined
start order chosen_hash chosen_cipher stuck = stuck

-- the part of libp2p_secio_handshake that follows the exchange of the ephemeral keys
unfoldable pub open_session :
    (hmac : List ℕ → List ℕ → List ℕ)
    → ℤ
    → (chosen_hash chosen_cipher secret : List ℕ) → Res SecioSession
open_session hmac order chosen_hash chosen_cipher secret =
    start order chosen_hash chosen_cipher (stretch_keys hmac chosen_cipher secret)

abbrev pub encoder : SecioSession → Counter
encoder s = record {
  nonce_offset = s.encode_offset;
  iv = s.local_key.iv;
  stream_block = s.encode_block;
}

abbrev pub decoder : SecioSession → Counter
decoder s = record {
  nonce_offset = s.decode_offset;
  iv = s.remote_key.iv;
  stream_block = s.decode_block;
}

abbrev pub encoded : Counter → SecioSession → SecioSession
encoded c s = record s {
  local_key = record (s.local_key) { iv = c.iv };
  encode_offset = c.nonce_offset;
  encode_block = c.stream_block;
}

abbrev pub decoded : Counter → SecioSession → SecioSession
decoded c s = record s {
  remote_key = record (s.remote_key) { iv = c.iv };
  decode_offset = c.nonce_offset;
  decode_block = c.stream_block;
}

abbrev pub session : M SecioSession SecioSession
session s = (ok s, s)

abbrev pub become : (SecioSession → SecioSession) → M SecioSession (Unit {0})
become f s = (ok tt, f s)

module _ (e : Engine) where
  open e use {takes_key, ctr, hmac}

  -- the MAC of a text: mbedtls_md_hmac_starts reads `mac_size` bytes at `mac_key`
  unfoldable pub mac : StretchedKey → List ℕ → M SecioSession (List ℕ)
  mac k text s =
      if leb k.mac_size (length k.mac_key)
      then (ok (hmac (take k.mac_size k.mac_key) text), s)
      else (undefined, s)

  -- The call of mbedtls_aes_crypt_ctr, which reads and writes a counter of 16 bytes at the IV.
  unfoldable pub crypt : List ℕ → Counter → List ℕ → M SecioSession (Option (List ℕ × Counter))
  crypt key c text s = if leb 16 (length c.iv) then (ok (ctr key c text), s) else (undefined, s)

  -- libp2p_secio_encrypt
  unfoldable pub encrypt : List ℕ → M SecioSession (List ℕ)
  encrypt incoming = do
    s ← session
    guard (takes_key s.local_key.cipher_key)
    out ← crypt s.local_key.cipher_key (encoder s) incoming
    elim out [
      | none ↦ fail
      | some (buffer, after) ↦ (do
        become (encoded after)
        m ← mac s.local_key buffer
        pure (buffer ++ m))
    ]

  -- the part of libp2p_secio_decrypt that follows the check of the MAC
  unfoldable pub decipher : List ℕ → M SecioSession (ℕ × Option (List ℕ))
  decipher text = do
    s ← session
    if takes_key s.remote_key.cipher_key
        then (do
          out ← crypt s.remote_key.cipher_key (decoder s) text
          elim out [
            | none ↦ pure (0, none)
            | some (buffer, after) ↦ (become (decoded after) >> pure (length buffer, some buffer))
          ])
        else pure (0, none)

  -- libp2p_secio_decrypt: what it returns, and the message that it gives out. The size of the text
  -- wraps around for a packet that is shorter than a MAC.
  unfoldable pub decrypt : List ℕ → M SecioSession (ℕ × Option (List ℕ))
  decrypt incoming =
      let n = length incoming - 32 in
      if ltb (length incoming) 32 then (λ s. (undefined, s)) else do
        s ← session
        m ← mac s.remote_key (take n incoming)
        if bytes_eq (drop n incoming) m then decipher (take n incoming) else pure (0, some incoming)
