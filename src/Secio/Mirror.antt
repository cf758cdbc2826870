-- ===== src/Secio/Mirror.antt =====
-- The sessions that two handshakes with one secret open.
use c_libp2p.Base.{
  ℕ, zero, suc, ◌<◌, ◌≡◌, ◌≢◌, ◌⊎◌, inl, inr, refl, ap, ap₂, ◌∙◌, List, some, length,
}
use c_libp2p.Base.{ℤ, pos, negsuc, codes, arith, bytes_eq, leb, false, true}
use c_libp2p.Transport.{ok, undefined}
use c_libp2p.Secio.Keys.{StretchedKey, stretch_keys, assign_keys, make_mac_and_cipher, mac_size_of}
use c_libp2p.Secio.Keys.{cipher_sizes}
use c_libp2p.Secio.Order.{opposite}
use c_libp2p.Secio.Packets.{
  Engine, SecioSession, start, open_session, known_hash, initialize_crypto,
}
use c_libp2p.Secio.Packets.{encoder, encoded, mac, crypt, encrypt}
use c_libp2p.Secio.Exchange.{Lawful, Mirrors, Delivers, decrypt_all-encrypt_all}
use c_libp2p.Secio.Stretch.{IsSized, stretch_keys_lem}

cipher_sizes_cases :
    (cipher : List ℕ) (i n : ℕ) → cipher_sizes cipher ≡ some (i, n) → (n ≡ 16) ⊎ (n ≡ 32)
unfolding cipher_sizes
cipher_sizes_cases cipher i n e = grind arith

cipher_iv_cases :
    (cipher : List ℕ) (i n : ℕ) → cipher_sizes cipher ≡ some (i, n) → (i ≡ 8) ⊎ (i ≡ 16)
unfolding cipher_sizes
cipher_iv_cases cipher i n e = grind arith

-- With SHA256 the keys stay as they were stretched.
sha256_keeps :
    (cipher : List ℕ) (k : StretchedKey) → (make_mac_and_cipher (codes "SHA256") cipher k).1 ≡ k
unfolding make_mac_and_cipher mac_size_of bytes_eq
sha256_keeps cipher k = refl

pair_Mirrors :
    (i n : ℕ) (k l : StretchedKey)
    → (n ≡ 16) ⊎ (n ≡ 32)
    → i ≡ 16
    → IsSized i n k
    → Mirrors (initialize_crypto k l) (initialize_crypto l k)
pair_Mirrors i n k l size iv s = record {
  iv_size = s.iv_length ∙ iv;
  same_key = refl;
  same_counter = refl;
  key_size = elim size [ inl e ↦ inl (s.cipher_length ∙ e) | inr e ↦ inr (s.cipher_length ∙ e) ];
  mac_fits = omega (arith, s.mac_says, s.mac_length);
}

module _ (e : Engine) (lawful : Lawful e) where
  start_at :
      (order : ℤ) (cipher secret : List ℕ) (k1 k2 : StretchedKey)
      → stretch_keys e.hmac cipher secret ≡ ok (k1, k2)
      → open_session e.hmac order (codes "SHA256") cipher secret
        ≡ ok (initialize_crypto (assign_keys order k1 k2).0 (assign_keys order k1 k2).1)
  unfolding open_session known_hash bytes_eq
  start_at order cipher secret k1 k2 h =
      ap (start order (codes "SHA256") cipher) h
      ∙ ap₂ (λ k l. ok (initialize_crypto k l)) (sha256_keeps cipher (assign_keys order k1 k2).0)
          (sha256_keeps cipher (assign_keys order k1 k2).1)

  assigned :
      (order : ℤ) (k1 k2 : StretchedKey)
      → order ≢ pos 0
      → assign_keys (opposite order) k1 k2
        ≡ ((assign_keys order k1 k2).1, (assign_keys order k1 k2).0)
  unfolding assign_keys
  assigned (pos zero) k1 k2 h = absurd (h refl)
  assigned (pos (suc n)) k1 k2 h = refl
  assigned (negsuc n) k1 k2 h = refl

  assigned_sizes :
      (order : ℤ) (i n : ℕ) (k1 k2 : StretchedKey)
      → IsSized i n k1
      → IsSized i n k2
      → IsSized i n (assign_keys order k1 k2).0 × IsSized i n (assign_keys order k1 k2).1
  unfolding assign_keys
  assigned_sizes (pos zero) i n k1 k2 h1 h2 = (h2, h1)
  assigned_sizes (pos (suc m)) i n k1 k2 h1 h2 = (h1, h2)
  assigned_sizes (negsuc m) i n k1 k2 h1 h2 = (h2, h1)

  -- With the hash SHA256, a cipher with an IV of 16 bytes and one shared secret, two peers with
  -- opposite orders, none of them 0, open sessions of which each can decrypt what the other encrypts.
  pub open_session-Mirrors :
      (order : ℤ) (cipher secret : List ℕ) (n : ℕ)
      → order ≢ pos 0
      → cipher_sizes cipher ≡ some (16, n)
      → (a : SecioSession) × (b : SecioSession) × (open_session e.hmac order
            (codes "SHA256")
            cipher
            secret
          ≡ ok a)
        × (open_session e.hmac (opposite order) (codes "SHA256") cipher secret ≡ ok b)
        × Mirrors a b
        × Mirrors b a
  open_session-Mirrors order cipher secret n h sizes =
      let (k1, k2, stretched, s1, s2) =
        stretch_keys_lem e.hmac cipher secret 16 n lawful.length-hmac sizes in
      let (mine, theirs) = assigned_sizes order 16 n k1 k2 s1 s2 in
      let size = cipher_sizes_cases cipher 16 n sizes in
      let k : StretchedKey = (assign_keys order k1 k2).0 in
      let l : StretchedKey = (assign_keys order k1 k2).1 in
      (
        initialize_crypto k l,
        initialize_crypto l k,
        start_at order cipher secret k1 k2 stretched,
        start_at (opposite order) cipher secret k1 k2 stretched
            ∙ ap (λ p. ok (initialize_crypto p.0 p.1)) (assigned order k1 k2 h),
        pair_Mirrors 16 n k l size refl mine,
        pair_Mirrors 16 n l k size refl theirs,
      )

  start_sha512 :
      (order : ℤ) (cipher secret : List ℕ) (k1 k2 : StretchedKey)
      → stretch_keys e.hmac cipher secret ≡ ok (k1, k2)
      → open_session e.hmac order (codes "SHA512") cipher secret
        ≡ ok (
            initialize_crypto
              (record ((assign_keys order k1 k2).0) { mac_size = 64 })
              (record ((assign_keys order k1 k2).1) { mac_size = 64 }))
  unfolding open_session known_hash bytes_eq make_mac_and_cipher mac_size_of
  start_sha512 order cipher secret k1 k2 h = ap (start order (codes "SHA512") cipher) h

  short_mac :
      (k : StretchedKey) (text : List ℕ) (s : SecioSession)
      → length k.mac_key < k.mac_size
      → (mac e k text s).0 ≡ undefined
  unfolding mac
  short_mac k text s h =
      let short : leb k.mac_size (length k.mac_key) ≡ false = ground arith in rw short refl

  -- the IV is too short, or the text is encrypted and the MAC key is
  overread :
      (a : SecioSession) (text : List ℕ) (i : ℕ)
      → (length a.local_key.cipher_key ≡ 16) ⊎ (length a.local_key.cipher_key ≡ 32)
      → length a.local_key.iv ≡ i
      → (i ≡ 8) ⊎ (i ≡ 16)
      → length a.local_key.mac_key < a.local_key.mac_size
      → (encrypt e text a).0 ≡ undefined
  unfolding encrypt crypt
  overread a text i key iv (inl eight) h =
      let short : leb 16 (length a.local_key.iv) ≡ false = ground arith in
      rw (lawful.key_taken a.local_key.cipher_key key, short) refl
  overread a text i key iv (inr sixteen) h =
      let long : leb 16 (length a.local_key.iv) ≡ true = ground arith in
      let (out, c, run) =
        lawful.ctr_runs a.local_key.cipher_key (encoder a) text key (iv ∙ sixteen) in
      rw
        (
          lawful.key_taken a.local_key.cipher_key key,
          long,
          run,
          short_mac a.local_key out (encoded c a) h,
        )
        refl

  -- With the hash SHA512 and a known cipher, a session opens, and to encrypt any message in it is
  -- undefined.
  pub encrypt_sha512 :
      (order : ℤ) (cipher secret : List ℕ) (i n : ℕ)
      → cipher_sizes cipher ≡ some (i, n)
      → (a : SecioSession) × (open_session e.hmac order (codes "SHA512") cipher secret ≡ ok a)
        × ((text : List ℕ) → (encrypt e text a).0 ≡ undefined)
  encrypt_sha512 order cipher secret i n sizes =
      let (k1, k2, stretched, s1, s2) =
        stretch_keys_lem e.hmac cipher secret i n lawful.length-hmac sizes in
      let (mine, theirs) = assigned_sizes order i n k1 k2 s1 s2 in
      let a : SecioSession =
        initialize_crypto (record ((assign_keys order k1 k2).0) { mac_size = 64 })
          (record ((assign_keys order k1 k2).1) { mac_size = 64 }) in
      let key : (length a.local_key.cipher_key ≡ 16) ⊎ (length a.local_key.cipher_key ≡ 32) =
        elim (cipher_sizes_cases cipher i n sizes) [
          | inl p ↦ inl (mine.cipher_length ∙ p)
          | inr p ↦ inr (mine.cipher_length ∙ p)
        ] in
      (
        a,
        start_sha512 order cipher secret k1 k2 stretched,
        λ text.
            overread a text i key mine.iv_length (cipher_iv_cases cipher i n sizes)
              (omega (arith, mine.mac_length)),
      )

  -- With the hash SHA256, a cipher with an IV of 16 bytes, as AES-128 and AES-256 have it and Blowfish
  -- has not, and one shared secret, two peers with opposite orders, none of them 0, open sessions
  -- between which messages pass in both directions: whatever the one
  -- encrypts in turn, the other decrypts in turn, each to itself.
  pub open_session-Delivers :
      (order : ℤ) (cipher secret : List ℕ) (n : ℕ) (texts replies : List (List ℕ))
      → order ≢ pos 0
      → cipher_sizes cipher ≡ some (16, n)
      → (a : SecioSession) × (b : SecioSession) × (open_session e.hmac order
            (codes "SHA256")
            cipher
            secret
          ≡ ok a)
        × (open_session e.hmac (opposite order) (codes "SHA256") cipher secret ≡ ok b)
        × Delivers e a b texts
        × Delivers e b a replies
  open_session-Delivers order cipher secret n texts replies h sizes =
      let (a, b, opened_a, opened_b, there, back) =
        open_session-Mirrors order cipher secret n h sizes in
      (
        a,
        b,
        opened_a,
        opened_b,
        decrypt_all-encrypt_all e lawful a b texts there,
        decrypt_all-encrypt_all e lawful b a replies back,
      )
