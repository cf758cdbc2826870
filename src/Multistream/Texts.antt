-- ===== src/Multistream/Texts.antt =====
-- Protocol ids, their lines, and the comparison of C strings.
use c_libp2p.Base.{ℕ, ◌≤◌, ◌≡◌, ◌≢◌, refl, List, [], ◌∷◌, ◌++◌, length, ap, ◌∙◌, sym}
use c_libp2p.Base.{arith, length-append, true, false, IsText, IsText-append}
use c_libp2p.Base.{c_string, c_string-text, take_all, bytes_eq, bytes_eq_refl, bytes_eq→eq}
use c_libp2p.Base.{codes, Bool-cases, inl, inr}
use c_libp2p.Multistream.{header, str_eq, line, trim}

-- a protocol id as a text that fits the buffers with its newline
pub record IsProtocol (p : List ℕ) : Type 0 where
  pub text : IsText p
  pub fits : length p ≤ 254

-- "na\n"
abbrev pub not_available : List ℕ
not_available = codes "na" ++ (10 ∷ [])

abbrev pub newline : List ℕ
newline = 10 ∷ []

pub header-IsText : IsText header
header-IsText = omega arith

pub line-protocol : (p : List ℕ) → IsProtocol p → line p ≡ p ++ newline
line-protocol p h =
    rw (c_string-text p h.text)
      (take_all 255 (p ++ newline) (omega (arith, length-append p newline, h.fits)))

pub line-IsText : (p : List ℕ) → IsProtocol p → IsText (p ++ newline)
line-IsText p h = IsText-append p newline h.text (omega arith)

pub str_eq_refl : (a : List ℕ) → str_eq a a ≡ true
str_eq_refl a = bytes_eq_refl _

pub str_eq_ne : (a b : List ℕ) → IsText a → IsText b → a ≢ b → str_eq a b ≡ false
str_eq_ne a b ha hb ne = elim (Bool-cases (str_eq a b)) [
  | inl e ↦ absurd (
      ne (
        bytes_eq→eq a b (
          ap (λ x. bytes_eq x b) (sym (c_string-text a ha))
          ∙ ap (bytes_eq _) (sym (c_string-text b hb))
          ∙ e)))
  | inr e ↦ e
]

trim-newline : (p : List ℕ) → trim (p ++ newline) ≡ p
unfolding trim
trim-newline [] = refl
trim-newline (b ∷ []) = refl
trim-newline (b ∷ c ∷ bs) = ap (λ l. b ∷ l) (trim-newline (c ∷ bs))

-- what the listener makes of a proposal
pub proposal_text : (p : List ℕ) → IsProtocol p → trim (c_string (p ++ newline)) ≡ p
proposal_text p h = ap trim (c_string-text (p ++ newline) (line-IsText p h)) ∙ trim-newline p
