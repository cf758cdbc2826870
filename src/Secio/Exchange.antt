-- ===== src/Secio/Exchange.antt =====
-- Two sessions of which each has the other's keys.
use c_libp2p.Base.{ℕ, ◌+◌, ◌-◌, ◌≤◌, ◌≡◌, ◌⊎◌, refl, ap, ◌∙◌, subst, List, [], ◌∷◌, ◌++◌}
use c_libp2p.Base.{Option, some, map, length, take, length-append, arith}
use c_libp2p.Base.{true, false, ltb, leb, if_true, bytes_eq_refl}
use c_libp2p.Base.{take_drop_lem}
use c_libp2p.Transport.{ok, M, ◌>>=◌, pure}
use c_libp2p.Secio.Keys.{StretchedKey}
use c_libp2p.Secio.Packets.{
  Counter, Engine, SecioSession, encoder, decoder, encoded, decoded, mac, crypt, encrypt, decipher,
  decrypt,
}

-- What is relied on of mbedtls: it takes keys of 16 and 32 bytes; in counter mode, with a counter of
-- 16 bytes, which it keeps, a text is encrypted and decrypted by the same call, and keeps its length; a
-- MAC has 32 bytes.
pub record Lawful (e : Engine) : Type 0 where
  pub key_taken : (key : List ℕ) → (length key ≡ 16) ⊎ (length key ≡ 32) → e.takes_key key ≡ true
  pub length-iv :
      (key : List ℕ) (c c' : Counter) (text out : List ℕ)
      → length c.iv ≡ 16
      → e.ctr key c text ≡ some (out, c')
      → length c'.iv ≡ 16
  pub ctr_runs :
      (key : List ℕ) (c : Counter) (text : List ℕ)
      → (length key ≡ 16) ⊎ (length key ≡ 32)
      → length c.iv ≡ 16
      → (out : List ℕ) × (c' : Counter) × (e.ctr key c text ≡ some (out, c'))
  pub ctr-ctr :
      (key : List ℕ) (c c' : Counter) (text out : List ℕ)
      → e.ctr key c text ≡ some (out, c')
      → e.ctr key c out ≡ some (text, c')
  pub length-ctr :
      (key : List ℕ) (c c' : Counter) (text out : List ℕ)
      → e.ctr key c text ≡ some (out, c')
      → length out ≡ length text
  pub length-hmac : (key text : List ℕ) → length (e.hmac key text) ≡ 32

-- what `a` sends, `b` can open
pub record Mirrors (a b : SecioSession) : Type 0 where
  pub same_key : a.local_key ≡ b.remote_key
  pub same_counter : encoder a ≡ decoder b
  pub key_size : (length a.local_key.cipher_key ≡ 16) ⊎ (length a.local_key.cipher_key ≡ 32)
  pub iv_size : length a.local_key.iv ≡ 16
  pub mac_fits : a.local_key.mac_size ≤ length a.local_key.mac_key

-- a message as libp2p_secio_decrypt gives it out
abbrev pub delivered : List ℕ → ℕ × Option (List ℕ)
delivered text = (length text, some text)

module _ (e : Engine) where
  -- messages that one session encrypts in turn
  abbrev pub encrypt_all : List (List ℕ) → M SecioSession (List (List ℕ))
  encrypt_all [] = pure []
  encrypt_all (text ∷ texts) = do
    packet ← encrypt e text
    packets ← encrypt_all texts
    pure (packet ∷ packets)

  -- packets that another decrypts in turn
  abbrev pub decrypt_all : List (List ℕ) → M SecioSession (List (ℕ × Option (List ℕ)))
  decrypt_all [] = pure []
  decrypt_all (packet ∷ packets) = do
    text ← decrypt e packet
    texts ← decrypt_all packets
    pure (text ∷ texts)

  -- the messages of `a`, encrypted in turn, are what `b` decrypts in turn
  abbrev pub Delivers : SecioSession → SecioSession → List (List ℕ) → Type 0
  Delivers a b texts =
      (packets : List (List ℕ)) × ((encrypt_all texts a).0 ≡ ok packets)
      × ((decrypt_all packets b).0 ≡ ok (map delivered texts))

module _ (e : Engine) (lawful : Lawful e) where
  open lawful use {key_taken, length-iv, ctr_runs, ctr-ctr, length-ctr, length-hmac}

  -- the bytes that the key of a session stands for
  abbrev mac_of : StretchedKey → List ℕ → List ℕ
  mac_of k text = e.hmac (take k.mac_size k.mac_key) text

  mac_lem :
      (k : StretchedKey) (text : List ℕ) (s : SecioSession)
      → k.mac_size ≤ length k.mac_key
      → mac e k text s ≡ (ok (mac_of k text), s)
  unfolding mac
  mac_lem k text s h =
      let fits : leb k.mac_size (length k.mac_key) ≡ true = ground arith in if_true _ _ _ fits

  crypt_lem :
      (key : List ℕ) (c : Counter) (text : List ℕ) (s : SecioSession)
      → length c.iv ≡ 16
      → crypt e key c text s ≡ (ok (e.ctr key c text), s)
  unfolding crypt
  crypt_lem key c text s h =
      let fits : leb 16 (length c.iv) ≡ true = ground arith in if_true _ _ _ fits

  encrypt_lem :
      (a : SecioSession) (text out : List ℕ) (c : Counter)
      → (length a.local_key.cipher_key ≡ 16) ⊎ (length a.local_key.cipher_key ≡ 32)
      → length a.local_key.iv ≡ 16
      → a.local_key.mac_size ≤ length a.local_key.mac_key
      → e.ctr a.local_key.cipher_key (encoder a) text ≡ some (out, c)
      → encrypt e text a ≡ (ok (out ++ mac_of a.local_key out), encoded c a)
  unfolding encrypt
  encrypt_lem a text out c key iv h run =
      rw
        (
          key_taken a.local_key.cipher_key key,
          crypt_lem a.local_key.cipher_key (encoder a) text a iv,
          run,
          mac_lem a.local_key out (encoded c a) h,
        )
        refl

  decipher_lem :
      (b : SecioSession) (text out : List ℕ) (c : Counter)
      → (length b.remote_key.cipher_key ≡ 16) ⊎ (length b.remote_key.cipher_key ≡ 32)
      → length b.remote_key.iv ≡ 16
      → e.ctr b.remote_key.cipher_key (decoder b) text ≡ some (out, c)
      → decipher e text b ≡ (ok (length out, some out), decoded c b)
  unfolding decipher
  decipher_lem b text out c key iv run =
      rw
        (
          key_taken b.remote_key.cipher_key key,
          crypt_lem b.remote_key.cipher_key (decoder b) text b iv,
          run,
        )
        refl

  decrypt_lem :
      (b : SecioSession) (text out : List ℕ) (c : Counter)
      → (length b.remote_key.cipher_key ≡ 16) ⊎ (length b.remote_key.cipher_key ≡ 32)
      → length b.remote_key.iv ≡ 16
      → b.remote_key.mac_size ≤ length b.remote_key.mac_key
      → e.ctr b.remote_key.cipher_key (decoder b) text ≡ some (out, c)
      → decrypt e (text ++ mac_of b.remote_key text) b ≡ (ok (length out, some out), decoded c b)
  unfolding decrypt
  decrypt_lem b text out c key iv h run =
      let m : List ℕ = mac_of b.remote_key text in
      let len : length (text ++ m) ≡ length text + 32 = omega (
        arith,
        length-append text m,
        length-hmac (take b.remote_key.mac_size b.remote_key.mac_key) text,
      ) in
      let long : ltb (length (text ++ m)) 32 ≡ false = ground arith in
      let (t, d) = take_drop_lem text m (length (text ++ m) - 32) (omega arith) in
      rw
        (
          long,
          t,
          d,
          mac_lem b.remote_key text b h,
          bytes_eq_refl m,
          decipher_lem b text out c key iv run,
        )
        refl

  -- one message from `a` to `b`
  deliver :
      (a b : SecioSession) (text : List ℕ)
      → Mirrors a b
      → (packet : List ℕ) × (a' : SecioSession) × (b' : SecioSession) × (encrypt e text a
          ≡ (ok packet, a'))
        × (decrypt e packet b ≡ (ok (length text, some text), b'))
        × Mirrors a' b'
  deliver a b text m =
      let (out, c, run) = ctr_runs a.local_key.cipher_key (encoder a) text m.key_size m.iv_size in
      let back : e.ctr b.remote_key.cipher_key (decoder b) out ≡ some (text, c) =
        subst (λ k. e.ctr (StretchedKey.cipher_key k) (decoder b) out ≡ some (text, c)) m.same_key
          (subst (λ d. e.ctr a.local_key.cipher_key d out ≡ some (text, c)) m.same_counter
            (ctr-ctr a.local_key.cipher_key (encoder a) c text out run)) in
      let fits : b.remote_key.mac_size ≤ length b.remote_key.mac_key =
        subst (λ k. StretchedKey.mac_size k ≤ length (StretchedKey.mac_key k)) m.same_key
          m.mac_fits in
      let key' =
        subst
          (λ k.
            (length (StretchedKey.cipher_key k) ≡ 16) ⊎ (length (StretchedKey.cipher_key k) ≡ 32))
          m.same_key m.key_size in
      let iv' = subst (λ k. length (StretchedKey.iv k) ≡ 16) m.same_key m.iv_size in
      (
        out ++ mac_of a.local_key out,
        encoded c a,
        decoded c b,
        encrypt_lem a text out c m.key_size m.iv_size m.mac_fits run,
        ap (λ k. decrypt e (out ++ mac_of k out) b) m.same_key
            ∙ decrypt_lem b out text c key' iv' fits back,
        record {
          same_key = ap (λ (k : StretchedKey). record k { iv = c.iv }) m.same_key;
          same_counter = refl;
          key_size = m.key_size;
          iv_size = length-iv a.local_key.cipher_key (encoder a) c text out m.iv_size run;
          mac_fits = m.mac_fits;
        },
      )

  -- Between two sessions of which the second has the keys and the counter of the first, any messages
  -- that the first encrypts in turn, the second decrypts in turn, each to itself.
  pub decrypt_all-encrypt_all :
      (a b : SecioSession) (texts : List (List ℕ)) → Mirrors a b → Delivers e a b texts
  decrypt_all-encrypt_all a b [] m = ([], refl, refl)
  decrypt_all-encrypt_all a b (text ∷ texts) m =
      let (packet, a', b', sent, got, m') = deliver a b text m in
      let (packets, all_sent, all_got) = decrypt_all-encrypt_all a' b' texts m' in
      (packet ∷ packets, rw (sent, all_sent) refl, rw (got, all_got) refl)
