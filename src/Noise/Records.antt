-- ===== src/Noise/Records.antt =====
-- What the encrypted stream writes, and what the other end reads of it.
use c_libp2p.Base.{ℕ, ◌+◌, ◌%◌, ◌^◌, ◌≤◌, ◌<◌, ◌≡◌, ◌≢◌, refl, sym, ap, ◌∙◌, subst, List, [], ◌∷◌}
use c_libp2p.Base.{◌++◌, some, min, length, take, arith, be16}
use c_libp2p.Base.{from_be16-be16, append-nil, length-take}
use c_libp2p.Base.{true, false, ltb, leb, ◌==◌, if_true, if◌then◌else◌, Bool-cases, inl, inr}
use c_libp2p.Transport.{Transport, Reliable, Res, ok, M}
use c_libp2p.Transport.{read_full, write_full}
use c_libp2p.Transport.Triple.{Did, Did-write}
use c_libp2p.Transport.ReadFull.{read_full-Did}
use c_libp2p.Transport.Run.{Ran, Ran-bind, Ran-then, Ran-guard, Ran-pure, Ran-bytes}
use c_libp2p.Noise.{Cipher, NoiseContext, Noise, tag_len, frame_len, opened}
use c_libp2p.Noise.{max_payload, on_raw, frame_header, next_frame, noise_read}
use c_libp2p.Noise.{noise_write}

-- What is relied on of the cipher: with the key and the nonce it was encrypted with, a text is
-- decrypted again; and it grows by its tag.
pub record Authentic (c : Cipher) : Type 0 where
  pub decrypt-encrypt :
      (key : List ℕ) (nonce : ℕ) (plaintext ciphertext : List ℕ)
      → c.encrypt key nonce plaintext ≡ some ciphertext
      → c.decrypt key nonce ciphertext ≡ some plaintext
  pub length-encrypt :
      (key : List ℕ) (nonce : ℕ) (plaintext ciphertext : List ℕ)
      → c.encrypt key nonce plaintext ≡ some ciphertext
      → length ciphertext ≡ length plaintext + tag_len

abbrev pub noise_at : {t : Transport} → t.State → NoiseContext → Noise t
noise_at n x = record { raw = n; ctx = x }

-- the bytes of a frame on the stream below
abbrev pub record_of : List ℕ → List ℕ
record_of ciphertext = be16 (length ciphertext) ++ ciphertext

-- The context after the read of a text from which `count` bytes are taken: the nonce counted up in
-- 64 bits, and the text kept up to where it was taken, if any of it is left.
abbrev pub after_text : ℕ → List ℕ → NoiseContext → NoiseContext
after_text count plaintext x =
    if leb (length plaintext) count
    then record x { read_nonce = (x.read_nonce + 1) % 2 ^ 64; read_buf = []; read_pos = 0 }
    else record x {
      read_nonce = (x.read_nonce + 1) % 2 ^ 64;
      read_buf = plaintext;
      read_pos = count;
    }

opened_lem :
    (count : ℕ) (plaintext : List ℕ) (x : NoiseContext)
    → opened count plaintext x ≡ after_text count plaintext x
opened_lem count plaintext x = elim (Bool-cases (leb (length plaintext) count)) [
  | inl all ↦
      let taken : min count (length plaintext) ≡ length plaintext = ground arith in
      let used : (length plaintext == length plaintext) ≡ true = ground arith in
      rw (taken, used, all) refl
  | inr some_left ↦
      let taken : min count (length plaintext) ≡ count = ground arith in
      let unused : (count == length plaintext) ≡ false = ground arith in
      rw (taken, unused, some_left) refl
]

ne_of_length : (bs : List ℕ) → 0 < length bs → bs ≢ []
ne_of_length [] h = absurd (omega arith)
ne_of_length (b ∷ bs) h = λ e. cc

tag_fits : (k : ℕ) → tag_len ≤ k → leb tag_len k ≡ true
tag_fits k h = ground arith

module _ {t : Transport} (rel : Reliable t) where
  open rel use {pending, sent, Usable}

  abbrev pub RanNoise :
      {A : Type 0} → t.State → Res A → NoiseContext → List ℕ → List ℕ → Res A × Noise t → Type 0
  RanNoise = Ran rel noise_at

  pub on_raw-Ran :
      {A : Type 0} (c : Cipher) (m : M t.State A) {n : t.State} (x : NoiseContext) {r : Res A}
      {rest bytes : List ℕ}
      → Did rel n r rest bytes (m n)
      → RanNoise n r x rest bytes (on_raw c t m (noise_at n x))
  on_raw-Ran c m {n} x d = record {
    net = (m n).1;
    result = ap (λ r. (r, noise_at (m n).1 x)) d.value;
    left = d.left;
    wrote = d.wrote;
    usable = d.usable;
  }

  -- the header in one call, where the stream below gives both of its bytes at once
  frame_header-Did :
      (c : Cipher) (n : t.State) (h l : ℕ) (rest : List ℕ)
      → Usable n
      → length (t.read n 2).0 ≡ 2
      → pending n ≡ h ∷ l ∷ rest
      → Did rel n (ok (h ∷ l ∷ [])) rest [] (frame_header c t n)
  unfolding frame_header
  frame_header-Did c n h l rest u whole e =
      let split : h ∷ l ∷ rest ≡ (t.read n 2).0 ++ pending (t.read n 2).1 =
        sym e ∙ rel.read_front n 2 u in
      let (got, left) = two (t.read n 2).0 (pending (t.read n 2).1) h l rest whole split in
      let both : (length (t.read n 2).0 == 2) ≡ true = rw whole refl in
      record {
        value = if_true (length (t.read n 2).0 == 2) _ _ both ∙ ap ok got;
        left = left;
        wrote = rel.sent-read n 2 u ∙ sym (append-nil (sent n));
        usable = rel.read-Usable n 2 u;
      }
    where
      two :
          (got left : List ℕ) (h l : ℕ) (rest : List ℕ)
          → length got ≡ 2
          → h ∷ l ∷ rest ≡ got ++ left
          → (got ≡ h ∷ l ∷ []) × (left ≡ rest)
      two [] left h l rest len e = absurd (omega arith)
      two (a ∷ []) left h l rest len e = absurd (omega arith)
      two (a ∷ b ∷ []) left h l rest len e = (cc, cc)
      two (a ∷ b ∷ d ∷ got) left h l rest len e = absurd (omega arith)

  -- A write encrypts the longest front of the data that a frame can hold, sends it as one frame,
  -- and counts the nonce up.
  pub noise_write-Ran :
      (c : Cipher) (auth : Authentic c) {n : t.State} (x : NoiseContext)
      (buf ciphertext rest : List ℕ)
      → c.encrypt x.write_key x.write_nonce (take (min (length buf) max_payload) buf)
        ≡ some ciphertext
      → Usable n
      → pending n ≡ rest
      → RanNoise n
          (ok (min (length buf) max_payload))
          (record x { write_nonce = (x.write_nonce + 1) % 2 ^ 64 })
          rest
          (record_of ciphertext)
          (noise_write c t buf (noise_at n x))
  unfolding noise_write
  noise_write-Ran c auth {n} x buf ciphertext rest enc u e =
      let count : ℕ = min (length buf) max_payload in
      let len : length ciphertext ≡ count + tag_len = omega (
        arith,
        auth.length-encrypt x.write_key x.write_nonce (take count buf) ciphertext enc,
        length-take count buf,
      ) in
      let head : List ℕ = be16 (count + tag_len) in
      let same : head ++ (ciphertext ++ []) ≡ record_of ciphertext =
        ap (λ l. head ++ l) (append-nil ciphertext) ∙ ap (λ k. be16 k ++ ciphertext) (sym len) in
      rw enc (
        Ran-bytes rel noise_at same (
          Ran-bind rel noise_at (on_raw c t (write_full t head)) _
            (on_raw-Ran c (write_full t head) x (Did-write rel n head (λ p. cc) u e))
            λ n1 u1 left1.
              Ran-bind rel noise_at (on_raw c t (write_full t ciphertext)) _
                (on_raw-Ran c (write_full t ciphertext) x
                  (Did-write rel n1 ciphertext (ne_of_length ciphertext (omega arith)) u1 left1))
                λ n2 u2 left2. Ran-pure rel noise_at u2 left2))

  pub noise_read_opens :
      (c : Cipher) (auth : Authentic c) {n : t.State} (x : NoiseContext) (count : ℕ)
      (plaintext ciphertext rest : List ℕ)
      → length x.read_buf ≤ x.read_pos
      → c.encrypt x.read_key x.read_nonce plaintext ≡ some ciphertext
      → length plaintext ≤ max_payload
      → Usable n
      → length (t.read n 2).0 ≡ 2
      → pending n ≡ record_of ciphertext ++ rest
      → RanNoise n
          (ok (take (min count (length plaintext)) plaintext))
          (opened count plaintext x)
          rest
          []
          (noise_read c t count (noise_at n x))
  unfolding noise_read next_frame
  noise_read_opens c auth {n} x count plaintext ciphertext rest empty enc fits u whole e =
      let len : length ciphertext ≡ length plaintext + tag_len =
        auth.length-encrypt x.read_key x.read_nonce plaintext ciphertext enc in
      let none_left : ltb x.read_pos (length x.read_buf) ≡ false = ground arith in
      let size : frame_len (be16 (length ciphertext)) ≡ length ciphertext =
        from_be16-be16 (length ciphertext) (omega arith) in
      let big_enough : leb tag_len (frame_len (be16 (length ciphertext))) ≡ true =
        ap (leb tag_len) size ∙ tag_fits (length ciphertext) (omega arith) in
      rw none_left (
        Ran-then rel noise_at (on_raw c t (frame_header c t)) _
          (on_raw-Ran c (frame_header c t) x
            (frame_header-Did c n _ _ (ciphertext ++ rest) u whole e))
          λ n1 u1 left1. Ran-guard rel noise_at _ big_enough (
            Ran-then rel noise_at (on_raw c t (read_full t (frame_len (be16 (length ciphertext)))))
              _
              (on_raw-Ran c (read_full t (frame_len (be16 (length ciphertext)))) x (
                subst (λ k. Did rel n1 (ok ciphertext) rest [] (read_full t k n1)) (sym size)
                  (read_full-Did rel n1 ciphertext rest u1 left1)))
              λ n2 u2 left2.
                rw (auth.decrypt-encrypt x.read_key x.read_nonce plaintext ciphertext enc)
                  (Ran-pure rel noise_at u2 left2)))

  -- A read on a buffer that is used up, where the stream below gives the header of the frame at
  -- once, returns the front of its text, as much as was asked for. It counts the nonce up, and keeps
  -- the text at the place where the next read goes on, or nothing where no byte is left.
  pub noise_read-Ran :
      (c : Cipher) (auth : Authentic c) {n : t.State} (x : NoiseContext) (count : ℕ)
      (plaintext ciphertext rest : List ℕ)
      → length x.read_buf ≤ x.read_pos
      → c.encrypt x.read_key x.read_nonce plaintext ≡ some ciphertext
      → length plaintext ≤ max_payload
      → Usable n
      → length (t.read n 2).0 ≡ 2
      → pending n ≡ record_of ciphertext ++ rest
      → RanNoise n
          (ok (take (min count (length plaintext)) plaintext))
          (after_text count plaintext x)
          rest
          []
          (noise_read c t count (noise_at n x))
  noise_read-Ran c auth {n} x count plaintext ciphertext rest empty enc fits u whole e =
      subst
        (λ y.
          RanNoise n (ok (take (min count (length plaintext)) plaintext)) y rest []
            (noise_read c t count (noise_at n x)))
        (opened_lem count plaintext x)
        (noise_read_opens c auth x count plaintext ciphertext rest empty enc fits u whole e)
