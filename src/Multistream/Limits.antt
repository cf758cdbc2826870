-- ===== src/Multistream/Limits.antt =====
-- The varint loop beyond the lengths that the writer produces: how many rounds it can run, and
-- where it shifts by more than the width of `size_t`.
use c_libp2p.Base.{ℕ, zero, suc, ◌+◌, ◌*◌, ◌≤◌, ◌<◌, ◌≡◌, refl, ap, ◌∙◌, List, [], ◌∷◌, ◌++◌}
use c_libp2p.Base.{length, All, arith, subst, bit_and, bit_and_128, ◌==◌, ltb, leb, true, false}
use c_libp2p.Base.{Bool-cases, inl, inr, if◌then◌else◌}
use c_libp2p.Transport.{Transport, Reliable, Res, ok, failed, undefined, stuck, M, go_on}
use c_libp2p.Transport.Triple.{Did}
use c_libp2p.Transport.{read_byte}
use c_libp2p.Multistream.{add_group, read_len_rounds, read_len, read_msg}
use c_libp2p.Transport.ReadFull.{Did-read_byte}

go_on_same :
    {S A B : Type 0} (r : Res A) (f g : A → M S B) (s : S)
    → ((a : A) → f a s ≡ g a s)
    → go_on r f s ≡ go_on r g s
go_on_same (ok a) f g s h = h a
go_on_same failed f g s h = refl
go_on_same undefined f g s h = refl
go_on_same stuck f g s h = refl

-- the part of a round after its byte
abbrev round : (t : Transport) → ℕ → ℕ → ℕ → ℕ → M t.State ℕ
round t fuel acc shift byte =
    if leb 64 shift
    then (λ s. (undefined, s))
    else if bit_and byte 0x80 == 0
    then (λ s. (ok (add_group acc byte shift), s))
    else read_len_rounds t fuel (add_group acc byte shift) (shift + 7)

shape : (f k : ℕ) → suc f + k ≡ suc (f + k)
shape f k = omega arith

module _ (t : Transport) where
  round_stop :
      (f g acc shift byte : ℕ) (s : t.State)
      → leb 64 shift ≡ true
      → round t f acc shift byte s ≡ round t g acc shift byte s
  round_stop f g acc shift byte s h = rw h

  round_more :
      (f g acc shift byte : ℕ) (s : t.State)
      → ((acc' : ℕ)
          → read_len_rounds t f acc' (shift + 7) s ≡ read_len_rounds t g acc' (shift + 7) s)
      → round t f acc shift byte s ≡ round t g acc shift byte s
  round_more f g acc shift byte s h = elim (Bool-cases (leb 64 shift)) [
    | inl e ↦ rw e
    | inr e ↦ elim (Bool-cases (bit_and byte 0x80 == 0)) [
      | inl z ↦ rw (e, z)
      | inr z ↦ rw (e, z) (h (add_group acc byte shift))
    ]
  ]

  rounds_enough :
      (f k acc shift : ℕ) (s : t.State)
      → 64 ≤ shift + 7 * f
      → read_len_rounds t (suc (f + k)) acc shift s ≡ read_len_rounds t (suc f) acc shift s
  unfolding read_len_rounds
  rounds_enough zero k acc shift s h =
      go_on_same (read_byte t s).0 _ _ _
        λ byte. round_stop (zero + k) zero acc shift byte _ (ground arith)
  rounds_enough (suc f) k acc shift s h = go_on_same (read_byte t s).0 _ _ _ λ byte.
      round_more (suc f + k) (suc f) acc shift byte _ λ acc'.
        ap (λ n. read_len_rounds t n acc' (shift + 7) (read_byte t s).1) (shape f k)
        ∙ rounds_enough f k acc' (shift + 7) _ (omega arith)

  -- Eleven rounds are enough on every stream: more fuel never changes what the loop does.
  pub read_len_enough : (k : ℕ) (s : t.State) → read_len_rounds t (11 + k) 0 0 s ≡ read_len t s
  unfolding read_len
  read_len_enough k s =
      ap (λ n. read_len_rounds t n 0 0 s) (shape 10 k) ∙ rounds_enough 10 k 0 0 s (omega arith)

-- a byte that asks for another
abbrev pub IsInner : ℕ → Type 0
IsInner b = (128 ≤ b) × (b < 256)

inner_test : (b : ℕ) → IsInner b → (bit_and b 0x80 == 0) ≡ false
inner_test b (lo, hi) = ground (arith, bit_and_128 b)

module _ {t : Transport} (rel : Reliable t) where
  open rel use {pending, sent, Usable}

  -- the rounds on bytes that all ask for another, as many as lead to a shift by 64
  wide_rounds :
      (bs : List ℕ) (acc shift : ℕ) (s : t.State) (rest : List ℕ)
      → All IsInner bs
      → shift < 71
      → 71 ≤ shift + 7 * length bs
      → Usable s
      → pending s ≡ bs ++ rest
      → (read_len_rounds t (length bs) acc shift s).0 ≡ undefined
  unfolding read_len_rounds
  wide_rounds [] acc shift s rest h below many u e = absurd (omega arith)
  wide_rounds (b ∷ bs) acc shift s rest (hb, hbs) below many u e =
      let d : Did rel s (ok b) (bs ++ rest) [] (read_byte t s) = Did-read_byte rel s b _ u e in
      ap (λ r. (go_on r (round t (length bs) acc shift) (read_byte t s).1).0) d.value
      ∙ elim (Bool-cases (leb 64 shift)) [
        | inl wide ↦ rw wide
        | inr small ↦
            let narrow : shift < 64 = ground arith in
            rw (small, inner_test b hb)
              (wide_rounds bs (add_group acc b shift) (shift + 7) _ rest hbs (omega arith)
                (omega arith) d.usable d.left)
      ]

  -- A peer that sends eleven bytes with the top bit set, where a length is read, drives the reader
  -- into undefined behaviour, within the eleven rounds that the loop is given.
  pub read_msg_undefined :
      (s : t.State) (max_len : ℕ) (bs rest : List ℕ)
      → All IsInner bs
      → length bs ≡ 11
      → 0 < max_len
      → Usable s
      → pending s ≡ bs ++ rest
      → (read_msg t max_len s).0 ≡ undefined
  unfolding read_msg read_len
  read_msg_undefined s max_len bs rest h eleven pos u e =
      let wide : (read_len_rounds t 11 0 0 s).0 ≡ undefined =
        subst (λ n. (read_len_rounds t n 0 0 s).0 ≡ undefined) eleven
          (wide_rounds bs 0 0 s rest h (omega arith) (omega arith) u e) in
      let some_room : ltb 0 max_len ≡ true = ground arith in rw (some_room, wide)
