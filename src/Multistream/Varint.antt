-- ===== src/Multistream/Varint.antt =====
-- The length prefix: what the writer's loop produces, the reader's loop takes back.
use c_libp2p.Base.{ℕ, zero, suc, ◌+◌, ◌*◌, ◌/◌, ◌%◌, ◌^◌, ◌≤◌, ◌<◌, ◌≡◌, ap, ◌∙◌}
use c_libp2p.Base.{List, [], ◌∷◌, ◌++◌, arith, subst, Bool-cases, inl, inr, ltb, ◌==◌}
use c_libp2p.Base.{bit_and, bit_or, bit_and_127, bit_and_128, bit_or_shifted, leb}
use c_libp2p.Base.{true, false}
use native.Mathlib.Nat.{div-add-mod, pow-suc}
use native.Mathlib.Numerals.{towards_suc}
use c_libp2p.Transport.{Transport, Reliable, ok}
use c_libp2p.Transport.{read_byte}
use c_libp2p.Transport.ReadFull.{Did-read_byte}
use c_libp2p.Transport.Triple.{Did, Did-pure, Did-bind}
use c_libp2p.Multistream.{len_rounds, len_prefix, add_group, read_len_rounds, read_len}

-- the two kinds of byte that the writer's loop puts out
last_group : (n : ℕ) → n < 128 → bit_and n 0x7f % 256 ≡ n
last_group n h = omega (arith, bit_and_127 n)

inner_group : (n : ℕ) → bit_or (bit_and n 0x7f % 256) 0x80 ≡ n % 128 + 128
inner_group n = ground (arith, bit_and_127 n, bit_or_shifted 7 (bit_and n 0x7f % 256) 1)

add_group_lem :
    (acc byte g shift : ℕ)
    → byte % 128 ≡ g
    → acc < 2 ^ shift
    → acc + g * 2 ^ shift < 2 ^ 64
    → add_group acc byte shift ≡ acc + g * 2 ^ shift
add_group_lem acc byte g shift e h fits =
    ground (arith, bit_and_127 byte, bit_or_shifted shift acc g)

shift_ok : (shift : ℕ) → shift < 64 → leb 64 shift ≡ false
shift_ok shift h = ground arith

stops : (byte : ℕ) → byte < 128 → (bit_and byte 0x80 == 0) ≡ true
stops byte h = ground (arith, bit_and_128 byte)

goes_on : (byte : ℕ) → byte < 128 → (bit_and (byte + 128) 0x80 == 0) ≡ false
goes_on byte h = ground (arith, bit_and_128 (byte + 128))

pub len_rounds-last : (room n : ℕ) → n / 128 ≡ 0 → len_rounds (suc room) n ≡ n ∷ []
unfolding len_rounds
len_rounds-last room n h = ground (arith, last_group n)

pub len_rounds-inner :
    (room n : ℕ)
    → 0 < n / 128
    → len_rounds (suc room) n ≡ (n % 128 + 128) ∷ len_rounds room (n / 128)
unfolding len_rounds
len_rounds-inner room n h = ground (arith, inner_group n)

seven_bits : (s : ℕ) → 2 ^ (s + 7) ≡ 128 * 2 ^ s
seven_bits s = simp towards_suc (omega arith)

-- the lowest group of `n` and the rest, both from bit `s` on
groups : (n s : ℕ) → n % 128 * 2 ^ s + n / 128 * 2 ^ (s + 7) ≡ n * 2 ^ s
groups n s = omega (
  arith,
  ap (λ (t : ℕ). t * 2 ^ s) (div-add-mod n 128),
  ap (λ (t : ℕ). n / 128 * t) (seven_bits s),
)

group_below : (acc g s : ℕ) → acc < 2 ^ s → g < 128 → acc + g * 2 ^ s < 2 ^ (s + 7)
group_below acc g s h k =
    let below : g * 2 ^ s ≤ 127 * 2 ^ s = grind arith in omega (arith, seven_bits s)

more_room : (room n : ℕ) → n < 128 ^ suc room → 0 < n / 128 → 0 < room
more_room zero n h p = absurd (omega arith)
more_room (suc room) n h p = omega arith

module _ {t : Transport} (rel : Reliable t) where
  open rel use {pending, sent, Usable}

  -- One round on a last byte, and on a byte with the top bit set.
  last_round :
      (fuel acc shift byte : ℕ) (s : t.State) (rest : List ℕ)
      → shift < 64
      → byte < 128
      → acc < 2 ^ shift
      → acc + byte * 2 ^ shift < 2 ^ 64
      → Usable s
      → pending s ≡ byte ∷ rest
      → Did rel s (ok (acc + byte * 2 ^ shift)) rest [] (read_len_rounds t (suc fuel) acc shift s)
  unfolding read_len_rounds
  last_round fuel acc shift byte s rest hs hb ha fits u e =
      Did-bind rel (read_byte t) _ (Did-read_byte rel s byte rest u e) λ u' left.
        rw
          (
            shift_ok shift hs,
            stops byte hb,
            add_group_lem acc byte byte shift (omega arith) ha fits,
          )
          (Did-pure rel u' left)

  inner_round :
      (fuel acc shift byte v : ℕ) (s : t.State) (rest bytes : List ℕ)
      → shift < 64
      → byte < 128
      → acc < 2 ^ shift
      → acc + byte * 2 ^ shift < 2 ^ 64
      → Usable s
      → pending s ≡ (byte + 128) ∷ rest
      → ((s' : t.State)
          → Usable s'
          → pending s' ≡ rest
          → Did rel s'
              (ok v)
              bytes
              []
              (read_len_rounds t fuel (acc + byte * 2 ^ shift) (shift + 7) s'))
      → Did rel s (ok v) bytes [] (read_len_rounds t (suc fuel) acc shift s)
  unfolding read_len_rounds
  inner_round fuel acc shift byte v s rest bytes hs hb ha fits u e k =
      Did-bind rel (read_byte t) _ (Did-read_byte rel s (byte + 128) rest u e) λ u' left.
        rw
          (
            shift_ok shift hs,
            goes_on byte hb,
            add_group_lem acc (byte + 128) byte shift (omega arith) ha fits,
          )
          (k (read_byte t s).1 u' left)

  -- The loop on what the writer put out for `n` with `room` bytes left, at byte `j`.
  read_len_rounds-Did :
      (room j fuel n acc shift : ℕ) (s : t.State) (rest : List ℕ)
      → room + j ≤ 10
      → room ≤ fuel
      → shift ≡ 7 * j
      → 0 < room
      → n < 128 ^ room
      → acc < 2 ^ shift
      → acc + n * 2 ^ shift < 2 ^ 64
      → Usable s
      → pending s ≡ len_rounds room n ++ rest
      → Did rel s (ok (acc + n * 2 ^ shift)) rest [] (read_len_rounds t fuel acc shift s)
  unfolding len_rounds
  read_len_rounds-Did zero j fuel n acc shift s rest hj hf hs hr hn ha fits u e =
      absurd (omega arith)
  read_len_rounds-Did (suc room) j zero n acc shift s rest hj hf hs hr hn ha fits u e =
      absurd (omega arith)
  read_len_rounds-Did (suc room) j (suc fuel) n acc shift s rest hj hf hs hr hn ha fits u e =
      elim (Bool-cases (ltb 0 (n / 128))) [
        | inl more ↦
            inner_round fuel acc shift (n % 128) (acc + n * 2 ^ shift) s
              (len_rounds room (n / 128) ++ rest) rest (omega arith) (omega arith) ha
              (omega (arith, groups n shift)) u
              (e ∙ ap (λ l. l ++ rest) (len_rounds-inner room n (ground arith)))
              λ s' u' left.
                subst
                  (λ v.
                    Did rel s' (ok v) rest []
                      (read_len_rounds t fuel (acc + n % 128 * 2 ^ shift) (shift + 7) s'))
                  (omega (arith, groups n shift))
                  (read_len_rounds-Did room (suc j) fuel (n / 128) (acc + n % 128 * 2 ^ shift)
                    (shift + 7) s' rest (omega arith) (omega arith) (omega arith)
                    (more_room room n hn (ground arith)) (omega (arith, pow-suc 128 room))
                    (group_below acc (n % 128) shift ha (omega arith))
                    (omega (arith, groups n shift)) u' left)
        | inr last ↦
            last_round fuel acc shift n s rest (omega arith) (ground arith) ha fits u
              (e ∙ ap (λ l. l ++ rest) (len_rounds-last room n (ground arith)))
      ]

  -- `read_len` gives back the length that `len_prefix` wrote, and leaves what follows it.
  pub read_len-Did :
      (s : t.State) (n : ℕ) (rest : List ℕ)
      → n < 2 ^ 64
      → Usable s
      → pending s ≡ len_prefix n ++ rest
      → Did rel s (ok n) rest [] (read_len t s)
  unfolding read_len len_prefix
  read_len-Did s n rest h u e =
      subst (λ v. Did rel s (ok v) rest [] (read_len_rounds t 11 0 0 s)) (omega arith)
        (read_len_rounds-Did 10 0 11 n 0 0 s rest (omega arith) (omega arith) (omega arith)
          (omega arith) (omega arith) (omega arith) (omega arith) u e)
