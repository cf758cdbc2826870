-- ===== src/Transport/ReadFull.antt =====
-- What the read loop does on a reliable stream.
use c_libp2p.Base.{ℕ, zero, suc, ◌+◌, ◌-◌, ◌≤◌, ◌<◌, ◌≡◌, ◌≢◌, refl, sym, ap, List, [], ◌∷◌, ◌++◌}
use c_libp2p.Base.{◌∙◌, length, arith, append-nil, append_split, length-append}
use c_libp2p.Base.{subst, false}
use c_libp2p.Transport.{
  Transport, Reliable, ok, first_byte, read_byte, read_rounds, read_full, null, prepend,
}
use c_libp2p.Transport.Triple.{Did, Did-pure}

module _ {t : Transport} (rel : Reliable t) where
  open rel use {pending, sent, Usable}

  cut :
      (s : t.State) (n : ℕ) (bs rest : List ℕ)
      → Usable s
      → pending s ≡ bs ++ rest
      → n ≡ length bs
      → (front : List ℕ) × (bs ≡ (t.read s n).0 ++ front) × (pending (t.read s n).1 ≡ front ++ rest)
  cut s n bs rest u e len =
      append_split (t.read s n).0 (pending (t.read s n).1) bs rest (sym (rel.read_front s n u) ∙ e)
        (subst (λ k. length (t.read s n).0 ≤ k) len (rel.read_le s n u))

  ne_of_longer :
      (s : t.State) (n : ℕ) (bs rest : List ℕ)
      → pending s ≡ bs ++ rest
      → suc n ≡ length bs
      → pending s ≢ []
  ne_of_longer s n [] rest e len = absurd (omega arith)
  ne_of_longer s n (b ∷ bs) rest e len = λ p. cc

  length-pos : (xs : List ℕ) → xs ≢ [] → 0 < length xs
  length-pos [] ne = absurd (ne refl)
  length-pos (x ∷ xs) ne = omega arith

  pub null_of_ne : (xs : List ℕ) → xs ≢ [] → null xs ≡ false
  null_of_ne [] ne = absurd (ne refl)
  null_of_ne (x ∷ xs) ne = refl

  pub read_rounds-Did :
      (fuel : ℕ) (s : t.State) (bs rest : List ℕ)
      → length bs ≤ fuel
      → Usable s
      → pending s ≡ bs ++ rest
      → (n : ℕ) → n ≡ length bs
      → Did rel s (ok bs) rest [] (read_rounds t fuel n s)
  unfolding read_rounds
  read_rounds-Did fuel s [] rest h u e zero len = Did-pure rel u e
  read_rounds-Did fuel s (b ∷ bs) rest h u e zero len = absurd (omega arith)
  read_rounds-Did zero s bs rest h u e (suc n) len = absurd (omega arith)
  read_rounds-Did (suc fuel) s bs rest h u e (suc n) len =
      let got : List ℕ = (t.read s (suc n)).0 in
      let s' : t.State = (t.read s (suc n)).1 in
      let (front, split, left) = cut s (suc n) bs rest u e len in
      let ne : got ≢ [] = rel.read_pos s (suc n) u (ne_of_longer s n bs rest e len) (omega arith) in
      let sum : length bs ≡ length got + length front = ap length split ∙ length-append got front in
      let pos : 0 < length got = length-pos got ne in
      let more : Did rel s' (ok front) rest [] (read_rounds t fuel (suc n - length got) s') =
        read_rounds-Did fuel s' front rest (omega arith) (rel.read-Usable s (suc n) u) left
          (suc n - length got) (omega arith) in
      rw (null_of_ne got ne) (record {
        value = ap (prepend got) more.value ∙ ap ok (sym split);
        left = more.left;
        wrote = more.wrote ∙ ap (λ l. l ++ []) (rel.sent-read s (suc n) u);
        usable = more.usable;
      })

  -- On a reliable stream with `bs` before `rest` pending, the loop returns `bs`, leaves `rest`
  -- pending and writes nothing.
  pub read_full-Did :
      (s : t.State) (bs rest : List ℕ)
      → Usable s
      → pending s ≡ bs ++ rest
      → Did rel s (ok bs) rest [] (read_full t (length bs) s)
  unfolding read_full
  read_full-Did s bs rest u e =
      read_rounds-Did (length bs) s bs rest (omega arith) u e (length bs) refl

  one_byte :
      (got more : List ℕ) (b : ℕ) (rest : List ℕ)
      → b ∷ rest ≡ got ++ more
      → got ≢ []
      → length got ≤ 1
      → (got ≡ b ∷ []) × (more ≡ rest)
  one_byte [] more b rest e ne le = absurd (ne refl)
  one_byte (x ∷ []) more b rest e ne le = (cc, cc)
  one_byte (x ∷ y ∷ got) more b rest e ne le = absurd (omega arith)

  -- A reliable stream gives its next byte.
  pub Did-read_byte :
      (s : t.State) (b : ℕ) (rest : List ℕ)
      → Usable s
      → pending s ≡ b ∷ rest
      → Did rel s (ok b) rest [] (read_byte t s)
  unfolding read_byte
  Did-read_byte s b rest u e =
      let ne : pending s ≢ [] = λ (p : pending s ≡ []). cc in
      let (got, left) =
        one_byte (t.read s 1).0 (pending (t.read s 1).1) b rest (sym e ∙ rel.read_front s 1 u)
          (rel.read_pos s 1 u ne (omega arith)) (rel.read_le s 1 u) in
      record {
        value = ap first_byte got;
        left = left;
        wrote = rel.sent-read s 1 u ∙ sym (append-nil (sent s));
        usable = rel.read-Usable s 1 u;
      }
