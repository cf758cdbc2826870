-- ===== src/Secio/Stretch.antt =====
-- The keys that libp2p_secio_stretch_keys cuts from its stream of hashes.
use c_libp2p.Base.{ℕ, zero, suc, ◌+◌, ◌-◌, ◌≤◌, ◌≡◌, refl, ap, ◌∙◌, List, [], ◌++◌}
use c_libp2p.Base.{some, min, length, take, drop, length-take, length-drop, length-append}
use c_libp2p.Base.{arith}
use c_libp2p.Transport.{ok, prepend}
use c_libp2p.Secio.Keys.{StretchedKey, cipher_sizes, key_at, two_keys, result_size, hmac_size, seed}
use c_libp2p.Secio.Keys.{fill_rounds, stretched, stretch_keys}

-- a key of these sizes whose MAC key is as long as it says
pub record IsSized (iv_size cipher_size : ℕ) (k : StretchedKey) : Type 0 where
  pub iv_length : length k.iv ≡ iv_size
  pub cipher_length : length k.cipher_key ≡ cipher_size
  pub mac_length : length k.mac_key ≡ hmac_size
  pub mac_says : k.mac_size ≡ hmac_size

pub cipher_sizes_bound : (cipher : List ℕ) (i n : ℕ) → cipher_sizes cipher ≡ some (i, n) → 16 ≤ n
unfolding cipher_sizes
cipher_sizes_bound cipher i n e = ground arith

key_at-IsSized :
    (i n : ℕ) (bs : List ℕ) → i + n + hmac_size ≤ length bs → IsSized i n (key_at i n bs)
key_at-IsSized i n bs h = record {
  iv_length = omega (arith, length-take i bs);
  cipher_length = omega (arith, length-take n (drop i bs), length-drop i bs);
  mac_length = omega (arith, length-take hmac_size (drop (i + n) bs), length-drop (i + n) bs);
  mac_says = refl;
}

module _ (hmac : (key text : List ℕ) → List ℕ) where
  -- The loop fills what it was to fill.
  fill_rounds_lem :
      (secret : List ℕ) (fuel left : ℕ) (a_hash : List ℕ)
      → ((key text : List ℕ) → length (hmac key text) ≡ 32)
      → left ≤ fuel
      → (bs : List ℕ) × (fill_rounds hmac secret fuel left a_hash ≡ ok bs) × (length bs ≡ left)
  unfolding fill_rounds
  fill_rounds_lem secret fuel zero a_hash size h = ([], refl, refl)
  fill_rounds_lem secret zero (suc n) a_hash size h = absurd (omega arith)
  fill_rounds_lem secret (suc fuel) (suc n) a_hash size h =
      let (bs, e, len) =
        fill_rounds_lem secret fuel (suc n - 32) (hmac secret a_hash) size (omega arith) in
      let front : List ℕ = take (min 32 (suc n)) (hmac secret (a_hash ++ seed hmac)) in
      (
        front ++ bs,
        ap (prepend front) e,
        omega (
          arith,
          len,
          length-append front bs,
          length-take (min 32 (suc n)) (hmac secret (a_hash ++ seed hmac)),
          size secret (a_hash ++ seed hmac),
        ),
      )

  stretch_at :
      (cipher secret bs : List ℕ) (i n : ℕ)
      → cipher_sizes cipher ≡ some (i, n)
      → fill_rounds hmac secret (result_size i n) (result_size i n) (hmac secret (seed hmac))
        ≡ ok bs
      → stretch_keys hmac cipher secret
        ≡ ok (key_at i n bs, key_at i n (drop (i + n + hmac_size) bs))
  unfolding stretch_keys
  stretch_at cipher secret bs i n e filled = ap (stretched hmac secret) e ∙ ap (two_keys i n) filled

  -- For a cipher that is known, and a HMAC of 32 bytes, the stretching of a secret ends with two
  -- keys of the cipher's sizes, each with a MAC key of 20 bytes: no copy reads behind the end of the
  -- stream of hashes.
  pub stretch_keys_lem :
      (cipher secret : List ℕ) (i n : ℕ)
      → ((key text : List ℕ) → length (hmac key text) ≡ 32)
      → cipher_sizes cipher ≡ some (i, n)
      → (k1 : StretchedKey) × (k2 : StretchedKey) × (stretch_keys hmac cipher secret ≡ ok (k1, k2))
        × IsSized i n k1
        × IsSized i n k2
  stretch_keys_lem cipher secret i n size e =
      let (bs, filled, len) =
        fill_rounds_lem secret (result_size i n) (result_size i n) (hmac secret (seed hmac)) size
          (omega arith) in
      let large : 16 ≤ n = cipher_sizes_bound cipher i n e in
      let room : (i + n + hmac_size) + (i + n + hmac_size) ≤ length bs = omega arith in
      (
        key_at i n bs,
        key_at i n (drop (i + n + hmac_size) bs),
        stretch_at cipher secret bs i n e filled,
        key_at-IsSized i n bs (omega arith),
        key_at-IsSized i n (drop (i + n + hmac_size) bs)
            (omega (arith, length-drop (i + n + hmac_size) bs)),
      )
