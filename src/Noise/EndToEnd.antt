-- ===== src/Noise/EndToEnd.antt =====
-- Reads after writes, and after one another.
use c_libp2p.Base.{ℕ, ◌+◌, ◌-◌, ◌%◌, ◌^◌, ◌≤◌, ◌<◌, ◌≡◌, refl, sym, ap, ◌∙◌, subst, List, [], ◌∷◌}
use c_libp2p.Base.{◌++◌, some, min, length, take, drop, arith}
use c_libp2p.Base.{append-nil, append_cancel_left, length-take, take_all}
use c_libp2p.Base.{true, false, ltb, ◌==◌, if_false, Bool-cases, inl, inr}
use c_libp2p.Transport.{Transport, Reliable, ok, failed}
use c_libp2p.Transport.Triple.{Did}
use c_libp2p.Transport.Run.{Ran-stop}
use c_libp2p.Noise.{Cipher, NoiseContext, settle, opened, served, max_payload, on_raw}
use c_libp2p.Noise.{frame_header, next_frame, noise_read, noise_write}
use c_libp2p.Noise.Records.{
  Authentic, noise_at, record_of, RanNoise, noise_write-Ran, noise_read_opens,
}
use c_libp2p.Noise.Records.{on_raw-Ran}

read_nonce-settle : (z : NoiseContext) → (settle z).read_nonce ≡ z.read_nonce
read_nonce-settle z = elim (Bool-cases (z.read_pos == length z.read_buf)) [
  | inl all ↦ rw all refl
  | inr some_left ↦ rw some_left refl
]

-- the context after the first part of a text
abbrev begun : ℕ → List ℕ → NoiseContext → NoiseContext
begun count plaintext x = record x {
  read_nonce = (x.read_nonce + 1) % 2 ^ 64;
  read_buf = plaintext;
  read_pos = count;
}

begun-opened :
    (count : ℕ) (plaintext : List ℕ) (x : NoiseContext)
    → count < length plaintext
    → opened count plaintext x ≡ begun count plaintext x
begun-opened count plaintext x more =
    let same : min count (length plaintext) ≡ count = omega arith in
    let not_all : (count == length plaintext) ≡ false = ground arith in
    ap (λ k. settle (begun k plaintext x)) same ∙ if_false (count == length plaintext) _ _ not_all

module _ (c : Cipher) (auth : Authentic c) {t u : Transport} (writer : Reliable t)
    (reader : Reliable u) where
  -- What one end writes, the other end reads: with one key and the nonces in step, where the reader's
  -- buffer is used up and the stream below gives the header of a frame at once, a read of at least as many bytes returns
  -- exactly the front of the data that the write reported as taken, and leaves the rest of the
  -- stream. The nonces are in step again afterwards.
  pub noise_read-noise_write :
      (n : t.State) (m : u.State) (x y : NoiseContext) (buf ciphertext bytes rest : List ℕ)
      (count : ℕ)
      → x.write_key ≡ y.read_key
      → x.write_nonce ≡ y.read_nonce
      → length y.read_buf ≤ y.read_pos
      → c.encrypt x.write_key x.write_nonce (take (min (length buf) max_payload) buf)
        ≡ some ciphertext
      → min (length buf) max_payload ≤ count
      → writer.Usable n
      → reader.Usable m
      → length (u.read m 2).0 ≡ 2
      → writer.sent (noise_write c t buf (noise_at n x)).1.raw ≡ writer.sent n ++ bytes
      → reader.pending m ≡ bytes ++ rest
      → let k = min (length buf) max_payload in
        ((noise_write c t buf (noise_at n x)).0 ≡ ok k)
        × ((noise_read c u count (noise_at m y)).0 ≡ ok (take k buf))
        × (reader.pending (noise_read c u count (noise_at m y)).1.raw ≡ rest)
        × ((noise_write c t buf (noise_at n x)).1.ctx.write_nonce
            ≡ (noise_read c u count (noise_at m y)).1.ctx.read_nonce)
  noise_read-noise_write n m x y buf ciphertext bytes rest count key nonce empty enc enough un um
        whole wrote e =
      let k : ℕ = min (length buf) max_payload in
      let out = noise_write-Ran writer c auth x buf ciphertext (writer.pending n) enc un refl in
      let same : bytes ≡ record_of ciphertext =
        append_cancel_left (writer.sent n)
          (sym wrote ∙ ap (λ o. writer.sent o.1.raw) out.result ∙ out.wrote) in
      let len : length (take k buf) ≡ k = omega (arith, length-take k buf) in
      let there : c.encrypt y.read_key y.read_nonce (take k buf) ≡ some ciphertext =
        subst (λ i. c.encrypt i y.read_nonce (take k buf) ≡ some ciphertext) key
          (subst (λ i. c.encrypt x.write_key i (take k buf) ≡ some ciphertext) nonce enc) in
      let back =
        noise_read_opens reader c auth y count (take k buf) ciphertext rest empty there
          (omega arith) um whole (e ∙ ap (λ l. l ++ rest) same) in
      let all : take (min count (length (take k buf))) (take k buf) ≡ take k buf =
        take_all (min count (length (take k buf))) (take k buf) (omega arith) in
      (
        ap (λ o. o.0) out.result,
        ap (λ o. o.0) back.result ∙ ap ok all,
        ap (λ o. reader.pending o.1.raw) back.result ∙ back.left,
        ap (λ o. o.1.ctx.write_nonce) out.result
            ∙ ap (λ i. (i + 1) % 2 ^ 64) nonce
            ∙ sym (ap (λ o. o.1.ctx.read_nonce) back.result ∙ read_nonce-settle _),
      )

module _ (c : Cipher) (t : Transport) where
  -- While the buffer holds bytes, a read takes them from there and the stream below is not
  -- touched.
  noise_read_buffered :
      (n : t.State) (x : NoiseContext) (count : ℕ)
      → x.read_pos < length x.read_buf
      → noise_read c t count (noise_at n x) ≡ (
        ok (take (min count (length x.read_buf - x.read_pos)) (drop x.read_pos x.read_buf)),
        noise_at n (served count x),
      )
  unfolding noise_read
  noise_read_buffered n x count more =
      let some_left : ltb x.read_pos (length x.read_buf) ≡ true = ground arith in rw some_left refl

module _ (c : Cipher) (auth : Authentic c) {t : Transport} (rel : Reliable t) where
  open rel use {pending, sent, Usable}

  -- Of two reads of one frame, the second goes on where the first stopped, and the stream below is
  -- not touched by it.
  pub noise_read_twice :
      (n : t.State) (x : NoiseContext) (count count' : ℕ) (plaintext ciphertext rest : List ℕ)
      → length x.read_buf ≤ x.read_pos
      → c.encrypt x.read_key x.read_nonce plaintext ≡ some ciphertext
      → length plaintext ≤ max_payload
      → count < length plaintext
      → Usable n
      → length (t.read n 2).0 ≡ 2
      → pending n ≡ record_of ciphertext ++ rest
      → let first = noise_read c t count (noise_at n x) in
        let second = noise_read c t count' first.1 in
        (first.0 ≡ ok (take count plaintext))
        × (second.0 ≡ ok (take (min count' (length plaintext - count)) (drop count plaintext)))
        × (pending second.1.raw ≡ rest)
  noise_read_twice n x count count' plaintext ciphertext rest empty enc fits more u whole e =
      let d =
        noise_read_opens rel c auth x count plaintext ciphertext rest empty enc fits u whole e in
      let stays = begun-opened count plaintext x more in
      let next = noise_read_buffered c t d.net (begun count plaintext x) count' more in
      let all : min count (length plaintext) ≡ count = omega arith in
      (
        ap (λ o. o.0) d.result ∙ ap (λ k. ok (take k plaintext)) all,
        ap (λ o. (noise_read c t count' o.1).0) d.result
            ∙ ap (λ z. (noise_read c t count' (noise_at d.net z)).0) stays
            ∙ ap (λ o. o.0) next,
        ap (λ o. pending (noise_read c t count' o.1).1.raw) d.result
            ∙ ap (λ z. pending (noise_read c t count' (noise_at d.net z)).1.raw) stays
            ∙ ap (λ o. pending o.1.raw) next
            ∙ d.left,
      )

module _ (c : Cipher) {t : Transport} (rel : Reliable t) where
  open rel use {pending, sent, Usable}

  frame_header_short :
      (n : t.State) (first : ℕ) (rest : List ℕ)
      → Usable n
      → length (t.read n 2).0 ≡ 1
      → pending n ≡ first ∷ rest
      → Did rel n failed rest [] (frame_header c t n)
  unfolding frame_header
  frame_header_short n first rest u short e =
      let not_both : (length (t.read n 2).0 == 2) ≡ false = rw short refl in
      record {
        value = if_false (length (t.read n 2).0 == 2) _ _ not_both;
        left =
            one (t.read n 2).0 (pending (t.read n 2).1) first rest short
              (sym e ∙ rel.read_front n 2 u);
        wrote = rel.sent-read n 2 u ∙ sym (append-nil (sent n));
        usable = rel.read-Usable n 2 u;
      }
    where
      one :
          (got left : List ℕ) (first : ℕ) (rest : List ℕ)
          → length got ≡ 1
          → first ∷ rest ≡ got ++ left
          → left ≡ rest
      one [] left first rest len e = absurd (omega arith)
      one (a ∷ []) left first rest len e = cc
      one (a ∷ b ∷ got) left first rest len e = absurd (omega arith)

  -- Where the stream below gives the first byte of a header alone, as it may, the read fails, and
  -- the byte is gone: the frame that it began cannot be read any more.
  pub noise_read_short_header :
      (n : t.State) (x : NoiseContext) (count first : ℕ) (rest : List ℕ)
      → length x.read_buf ≤ x.read_pos
      → Usable n
      → length (t.read n 2).0 ≡ 1
      → pending n ≡ first ∷ rest
      → RanNoise rel n failed x rest [] (noise_read c t count (noise_at n x))
  unfolding noise_read next_frame
  noise_read_short_header n x count first rest empty u short e =
      let none_left : ltb x.read_pos (length x.read_buf) ≡ false = ground arith in
      rw none_left (
        Ran-stop rel noise_at (on_raw c t (frame_header c t)) _
          (on_raw-Ran rel c (frame_header c t) x (frame_header_short n first rest u short e)))
