-- ===== src/Noise.antt =====
-- v2/src/conn/noise.c: the encrypted stream that a handshake leaves behind. noise_encrypt and
-- noise_decrypt, which call OpenSSL, are the parameter `Cipher`; the handshake is not modelled. Each
-- call holds the mutex of its stream. `malloc` is taken to succeed.
pub mod Records
pub mod EndToEnd
mod Tests
use c_libp2p.Base.{ℕ, ◌+◌, ◌-◌, ◌*◌, ◌%◌, ◌^◌, List, [], ◌∷◌, ◌++◌, Option, none, some, min, length}
use c_libp2p.Base.{Bool, true, false, ltb, leb, ◌==◌, if◌then◌else◌, take, drop, be16, from_be16}
use c_libp2p.Transport.{Transport, Res, ok, failed, M, ◌>>=◌, ◌>>◌, pure, fail, guard}
use c_libp2p.Transport.{read_full, write_full}

-- NOISE_TAGLEN
abbrev pub tag_len : ℕ
tag_len = 16

-- noise_encrypt and noise_decrypt, of a key, a nonce and a text
pub record Cipher : Type 0 where
  pub encrypt : List ℕ → ℕ → List ℕ → Option (List ℕ)
  pub decrypt : List ℕ → ℕ → List ℕ → Option (List ℕ)

-- struct NoiseStreamContext, less its stream below and its mutex. `read_buf` has `read_len` bytes.
pub record NoiseContext : Type 0 where
  pub read_key : List ℕ
  pub write_key : List ℕ
  pub read_nonce : ℕ
  pub write_nonce : ℕ
  pub read_buf : List ℕ
  pub read_pos : ℕ

pub record Noise (t : Transport) : Type 0 where
  pub raw : t.State
  pub ctx : NoiseContext

-- the buffer after bytes were taken from it: emptied where all have been
abbrev pub settle : NoiseContext → NoiseContext
settle x = if x.read_pos == length x.read_buf then record x { read_buf = []; read_pos = 0 } else x

-- `(frame_header[0] << 8) | frame_header[1]`
abbrev pub frame_len : List ℕ → ℕ
frame_len (h ∷ l ∷ bs) = from_be16 h l
frame_len bs = 0

-- the context after a frame with the text `plaintext`, of which `count` bytes were asked for
abbrev pub opened : ℕ → List ℕ → NoiseContext → NoiseContext
opened count plaintext x = settle (record x {
  read_nonce = (x.read_nonce + 1) % 2 ^ 64;
  read_buf = plaintext;
  read_pos = min count (length plaintext);
})

-- the context after `count` bytes of the buffer were served
abbrev pub served : ℕ → NoiseContext → NoiseContext
served count x =
    settle (record x { read_pos = x.read_pos + min count (length x.read_buf - x.read_pos) })

abbrev pub max_payload : ℕ
max_payload = 65535 - tag_len

module _ (c : Cipher) (t : Transport) where
  open c use {encrypt, decrypt}

  abbrev pub on_raw : {A : Type 0} → M t.State A → M (Noise t) A
  on_raw m s = ((m s.raw).0, record s { raw = (m s.raw).1 })

  abbrev pub on_ctx : (NoiseContext → NoiseContext) → M (Noise t) (Unit {0})
  on_ctx f s = (ok tt, record s { ctx = f s.ctx })

  abbrev pub context : M (Noise t) NoiseContext
  context s = (ok s.ctx, s)

  -- one call of `read`, for a header of 2 bytes
  unfoldable pub frame_header : M t.State (List ℕ)
  frame_header s =
      (if length (t.read s 2).0 == 2 then ok (t.read s 2).0 else failed, (t.read s 2).1)

  -- the part of noise_stream_read that reads a frame
  unfoldable pub next_frame : ℕ → M (Noise t) (List ℕ)
  next_frame count = do
    h ← on_raw (frame_header)
    guard (leb tag_len (frame_len h))
    bs ← on_raw (read_full t (frame_len h))
    x ← context
    elim (decrypt x.read_key x.read_nonce bs) [
      | none ↦ fail
      | some plaintext ↦
          on_ctx (opened count plaintext) >> pure (take (min count (length plaintext)) plaintext)
    ]

  -- noise_stream_read
  unfoldable pub noise_read : ℕ → M (Noise t) (List ℕ)
  noise_read count = do
    x ← context
    if ltb x.read_pos (length x.read_buf)
        then (do
          on_ctx (served count)
          pure (take (min count (length x.read_buf - x.read_pos)) (drop x.read_pos x.read_buf)))
        else next_frame count

  -- noise_stream_write: the number of bytes that it took
  unfoldable pub noise_write : List ℕ → M (Noise t) ℕ
  noise_write buf = do
    x ← context
    let count = min (length buf) max_payload
    elim (encrypt x.write_key x.write_nonce (take count buf)) [
      | none ↦ fail
      | some ciphertext ↦ (do
        on_raw (write_full t (be16 (count + tag_len)))
        on_raw (write_full t ciphertext)
        on_ctx (λ x. record x { write_nonce = (x.write_nonce + 1) % 2 ^ 64 })
        pure count)
    ]
