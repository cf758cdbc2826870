-- ===== src/Secio/Order.antt =====
-- The comparison of two hashes that decides which peer leads.
use c_libp2p.Base.{
  ℕ, zero, suc, ◌+◌, ◌-◌, ◌*◌, ◌^◌, ◌<◌, ◌≡◌, refl, List, [], ◌∷◌, Option, none, some,
}
use c_libp2p.Base.{
  ℤ, pos, negsuc, ltb, if◌then◌else◌, length, All, arith, inl, inr, Bool-cases, if_true, if_false,
  ◌∙◌,
}
use native.Mathlib.Nat.{pow-suc}
use c_libp2p.Secio.{bytes_compare}

-- the order as the other peer sees it
abbrev pub opposite : ℤ → ℤ
opposite (pos zero) = pos zero
opposite (pos (suc n)) = negsuc n
opposite (negsuc n) = pos (suc n)

abbrev pub opposite? : Option ℤ → Option ℤ
opposite? none = none
opposite? (some o) = some (opposite o)

pub bytes_compare_swap :
    (a b : List ℕ) (n : ℕ) → bytes_compare b a n ≡ opposite? (bytes_compare a b n)
unfolding bytes_compare
bytes_compare_swap a b zero = refl
bytes_compare_swap [] [] (suc n) = refl
bytes_compare_swap [] (y ∷ b) (suc n) = refl
bytes_compare_swap (x ∷ a) [] (suc n) = refl
bytes_compare_swap (x ∷ a) (y ∷ b) (suc n) = ground (arith, bytes_compare_swap a b n)

pub bytes_compare_same :
    (a b : List ℕ) (n : ℕ)
    → length a ≡ n
    → length b ≡ n
    → bytes_compare a b n ≡ some (pos 0)
    → a ≡ b
unfolding bytes_compare
bytes_compare_same [] [] zero ha hb e = refl
bytes_compare_same (x ∷ a) b zero ha hb e = absurd (omega arith)
bytes_compare_same [] (y ∷ b) zero ha hb e = absurd (omega arith)
bytes_compare_same [] b (suc n) ha hb e = absurd (omega arith)
bytes_compare_same (x ∷ a) [] (suc n) ha hb e = absurd (omega arith)
bytes_compare_same (x ∷ a) (y ∷ b) (suc n) ha hb e =
    ground (arith, bytes_compare_same a b n (omega arith) (omega arith))

-- the number that a byte string spells, the most significant byte first
abbrev pub number : List ℕ → ℕ
number [] = 0
number (x ∷ xs) = x * 256 ^ length xs + number xs

abbrev pub IsBytes : List ℕ → Type 0
IsBytes = All (λ b. b < 256)

-- -1, 0 or 1
abbrev pub compared : ℕ → ℕ → ℤ
compared m n = if ltb m n then negsuc 0 else if ltb n m then pos 1 else pos 0

mul_less : (x d p r s : ℕ) → r < p → x * p + r < (x + suc d) * p + s
mul_less x d p r s h = omega arith

more : (x y p r s : ℕ) → x < y → r < p → x * p + r < y * p + s
more x y p r s h hr =
    let e : y ≡ x + suc (y - suc x) = omega arith in rw e (mul_less x (y - suc x) p r s hr)

number_bound : (xs : List ℕ) → IsBytes xs → number xs < 256 ^ length xs
number_bound [] h = omega arith
number_bound (x ∷ xs) h = omega (
  arith,
  pow-suc 256 (length xs),
  more x 256 (256 ^ length xs) (number xs) 0 h.0 (number_bound xs h.1),
)

-- The comparison is that of the numbers which the two byte strings spell.
pub bytes_compare_lem :
    (a b : List ℕ) (n : ℕ)
    → length a ≡ n
    → length b ≡ n
    → IsBytes a
    → IsBytes b
    → bytes_compare a b n ≡ some (compared (number a) (number b))
unfolding bytes_compare
bytes_compare_lem [] [] zero la lb ha hb = refl
bytes_compare_lem (x ∷ a) b zero la lb ha hb = absurd (omega arith)
bytes_compare_lem [] (y ∷ b) zero la lb ha hb = absurd (omega arith)
bytes_compare_lem [] b (suc n) la lb ha hb = absurd (omega arith)
bytes_compare_lem (x ∷ a) [] (suc n) la lb ha hb = absurd (omega arith)
bytes_compare_lem (x ∷ a) (y ∷ b) (suc n) la lb ha hb =
    let same : length a ≡ length b = omega arith in
    ground (
      arith,
      same,
      bytes_compare_lem a b n (omega arith) (omega arith) ha.1 hb.1,
      more x y (256 ^ length b) (number a) (number b),
      more y x (256 ^ length b) (number b) (number a),
      number_bound a ha.1,
      number_bound b hb.1,
    )

pub bytes_compare-some :
    (a b : List ℕ) (n : ℕ)
    → length a ≡ n
    → length b ≡ n
    → (order : ℤ) × (bytes_compare a b n ≡ some order)
unfolding bytes_compare
bytes_compare-some a b zero la lb = (pos 0, refl)
bytes_compare-some [] b (suc n) la lb = absurd (omega arith)
bytes_compare-some (x ∷ a) [] (suc n) la lb = absurd (omega arith)
bytes_compare-some (x ∷ a) (y ∷ b) (suc n) la lb =
    let (order, ih) = bytes_compare-some a b n (omega arith) (omega arith) in
    elim (Bool-cases (ltb x y)) [
      | inl e ↦ (negsuc 0, if_true (ltb x y) _ _ e)
      | inr e ↦ elim (Bool-cases (ltb y x)) [
        | inl e' ↦ (pos 1, if_false (ltb x y) _ _ e ∙ if_true (ltb y x) _ _ e')
        | inr e' ↦ (order, if_false (ltb x y) _ _ e ∙ if_false (ltb y x) _ _ e' ∙ ih)
      ]
    ]
