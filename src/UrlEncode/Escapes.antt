-- ===== src/UrlEncode/Escapes.antt =====
-- What is encoded is decoded again; and the size of the encoder's buffer.
use c_libp2p.Base.{
  if◌then◌else◌, ℕ, ◌+◌, ◌*◌, ◌/◌, ◌%◌, ◌<◌, ◌≡◌, refl, ap, ap₂, ◌∙◌, ◌^◌, List, [], ◌∷◌,
}
use c_libp2p.Base.{Option, some, bit_or, bit_and, bit_and_15, bit_or_shifted, arith, All, length}
use c_libp2p.Base.{true, false, ltb, ◌==◌, Bool-cases, inl, inr}
use c_libp2p.Base.{if_true, if_false}
use c_libp2p.Base.{zero, suc, ◌-◌, ◌≤◌, ◌⊎◌, ◌++◌}
use c_libp2p.UrlEncode.{
  Encoded, encoded, overrun, outside, before, write_byte, encode_rounds, isalnum, hex, h2b, prepend,
  url_encode, unescape, url_decode,
}

h2b-hex : (n : ℕ) → n < 16 → h2b (hex n) ≡ n
unfolding h2b hex
h2b-hex n h = ground arith

unescape_lem : (c : ℕ) → c < 128 → unescape (hex (c / 16)) (hex (bit_and c 15)) ≡ c
unescape_lem c h =
    let low : bit_and (h2b (hex (bit_and c 15))) 15 ≡ c % 16 =
      ap (λ n. bit_and n 15) (h2b-hex (bit_and c 15) (omega (arith, bit_and_15 c)) ∙ bit_and_15 c)
      ∙ bit_and_15 (c % 16)
      ∙ omega arith in
    let high : h2b (hex (c / 16)) * 16 % 256 ≡ c / 16 * 2 ^ 4 =
      ap (λ n. n * 16 % 256) (h2b-hex (c / 16) (omega arith)) ∙ omega arith in
    ap₂ bit_or low high ∙ bit_or_shifted 4 (c % 16) (c / 16) (omega arith) ∙ omega arith

plain : (c : ℕ) → isalnum c ≡ true → (c == 37) ≡ false
unfolding isalnum
plain c h = ground arith

url_decode-plain :
    (c : ℕ) (cs : List ℕ) → (c == 37) ≡ false → url_decode (c ∷ cs) ≡ prepend c (url_decode cs)
unfolding url_decode
url_decode-plain c [] h = if_false (c == 37) _ _ h
url_decode-plain c (a ∷ []) h = if_false (c == 37) _ _ h
url_decode-plain c (a ∷ b ∷ cs) h =
    ap
      (λ t. elim t as (λ x. Option (List ℕ)) [
        | true ↦ prepend (unescape a b) (url_decode cs)
        | false ↦ prepend c (url_decode (a ∷ b ∷ cs))
      ])
      h

url_decode-escape :
    (a b : ℕ) (cs : List ℕ) → url_decode (37 ∷ a ∷ b ∷ cs) ≡ prepend (unescape a b) (url_decode cs)
unfolding url_decode
url_decode-escape a b cs = refl

-- A text with a character that is not escaped.
abbrev pub HasPlain : List ℕ → Type 0
HasPlain [] = ⊥
HasPlain (c ∷ cs) = (isalnum c ≡ true) ⊎ HasPlain cs

-- a byte that there is room for
write_byte-room :
    (c room : ℕ) (next : ℕ → Encoded)
    → 0 < room
    → write_byte c room next ≡ before c (next (room - 1))
write_byte-room c zero next h = absurd (omega arith)
write_byte-room c (suc room) next h = ap (λ r. before c (next r)) (omega arith)

-- the two ways that a character is encoded
encode-plain :
    (c room : ℕ) (cs : List ℕ)
    → isalnum c ≡ true
    → 0 < room
    → encode_rounds (c ∷ cs) room ≡ before c (encode_rounds cs (room - 1))
unfolding encode_rounds
encode-plain c room cs plain_c h =
    if_true (isalnum c) _ _ plain_c ∙ write_byte-room c room (encode_rounds cs) h

encode-special :
    (c room : ℕ) (cs : List ℕ)
    → isalnum c ≡ false
    → c < 128
    → encode_rounds (c ∷ cs) (3 + room)
      ≡ before 37 (before (hex (c / 16)) (before (hex (bit_and c 15)) (encode_rounds cs room)))
unfolding encode_rounds
encode-special c room cs special small =
    let in_table : ltb c 128 ≡ true = ground arith in
    let rest = encode_rounds cs in
    let high : ℕ = hex (c / 16) in
    let low : ℕ = hex (bit_and c 15) in
    let digits : ℕ → Encoded = λ r. write_byte high r (λ r. write_byte low r rest) in
    let down3 : (3 + room) - 1 ≡ 2 + room = omega arith in
    let down2 : (2 + room) - 1 ≡ 1 + room = omega arith in
    let down1 : (1 + room) - 1 ≡ room = omega arith in
    if_false (isalnum c) _ _ special
    ∙ write_byte-room 37 (3 + room) (λ r. if ltb c 128 then digits r else outside) (omega arith)
    ∙ ap (before 37) (if_true (ltb c 128) _ _ in_table)
    ∙ ap (λ r. before 37 (digits r)) down3
    ∙ ap (before 37) (write_byte-room high (2 + room) (λ r. write_byte low r rest) (omega arith))
    ∙ ap (λ r. before 37 (before high (write_byte low r rest))) down2
    ∙ ap (λ o. before 37 (before high o)) (write_byte-room low (1 + room) rest (omega arith))
    ∙ ap (λ r. before 37 (before high (before low (rest r)))) down1

-- what the encoder makes of a text, with enough room, is the text again for the decoder
encodes :
    (cs : List ℕ) (room : ℕ)
    → All (λ c. c < 128) cs
    → (3 * length cs < room) ⊎ (HasPlain cs × (3 * length cs ≤ room))
    → (es : List ℕ) × (encode_rounds cs room ≡ encoded (es ++ (0 ∷ []))) × (url_decode es ≡ some cs)
unfolding encode_rounds url_decode
encodes [] room h (inl fits) = ([], write_byte-room 0 room (λ r. encoded []) (omega arith), refl)
encodes [] room h (inr (none_plain, fits)) = absurd none_plain
encodes (c ∷ cs) room (small, h) fits = elim (Bool-cases (isalnum c)) [
  | inl plain_c ↦
      let (es, enc, dec) = encodes cs (room - 1) h (inl (roomy fits)) in
      (
        c ∷ es,
        encode-plain c room cs plain_c (some_room fits) ∙ ap (before c) enc,
        url_decode-plain c es (plain c plain_c) ∙ ap (prepend c) dec,
      )
  | inr special ↦
      let (es, enc, dec) = encodes cs (room - 3) h (still fits special) in
      let high : ℕ = hex (c / 16) in
      let low : ℕ = hex (bit_and c 15) in
      let split : room ≡ 3 + (room - 3) = omega (arith, bytes_fit fits) in
      (
        37 ∷ high ∷ low ∷ es,
        ap (encode_rounds (c ∷ cs)) split
            ∙ encode-special c (room - 3) cs special small
            ∙ ap (λ o. before 37 (before high (before low o))) enc,
        url_decode-escape high low es
            ∙ ap (prepend (unescape high low)) dec
            ∙ ap (λ b. some (b ∷ cs)) (unescape_lem c small),
      )
]
  where
    Fits : Type 0
    Fits = (3 * length (c ∷ cs) < room) ⊎ (HasPlain (c ∷ cs) × (3 * length (c ∷ cs) ≤ room))

    bytes_fit : Fits → 3 * length (c ∷ cs) ≤ room
    bytes_fit (inl f) = omega arith
    bytes_fit (inr (has, f)) = f

    some_room : Fits → 0 < room
    some_room f = omega (arith, bytes_fit f)

    roomy : Fits → 3 * length cs < room - 1
    roomy f = omega (arith, bytes_fit f)

    still :
        Fits
        → isalnum c ≡ false
        → (3 * length cs < room - 3) ⊎ (HasPlain cs × (3 * length cs ≤ room - 3))
    still (inl f) special = inl (omega arith)
    still (inr (inl plain_c, f)) special = absurd (cc)
    still (inr (inr has, f)) special = inr (has, omega arith)

-- A text of characters below 128, of which one at least is a letter or a digit, fits the buffer: the
-- encoder succeeds, with a NUL at the end, and the decoder then gives the text back.
pub url_decode-url_encode :
    (cs : List ℕ)
    → All (λ c. c < 128) cs
    → HasPlain cs
    → (es : List ℕ) × (url_encode cs ≡ encoded (es ++ (0 ∷ []))) × (url_decode es ≡ some cs)
unfolding url_encode
url_decode-url_encode cs h has = encodes cs (3 * length cs) h (inr (has, omega arith))

full :
    (cs : List ℕ) (room : ℕ)
    → All (λ c. (isalnum c ≡ false) × (c < 128)) cs
    → room ≡ 3 * length cs
    → encode_rounds cs room ≡ overrun
unfolding encode_rounds
full [] zero h e = refl
full [] (suc room) h e = absurd (omega arith)
full (c ∷ cs) room ((special, small), h) e =
    let split : room ≡ 3 + 3 * length cs = omega arith in
    ap (encode_rounds (c ∷ cs)) split
    ∙ encode-special c (3 * length cs) cs special small
    ∙ ap (λ o. before 37 (before (hex (c / 16)) (before (hex (bit_and c 15)) o)))
        (full cs (3 * length cs) h refl)

-- A text of characters below 128 that are all escaped, as is the empty one, makes the encoder write
-- behind the end of its buffer.
pub url_encode_overflows :
    (cs : List ℕ) → All (λ c. (isalnum c ≡ false) × (c < 128)) cs → url_encode cs ≡ overrun
unfolding url_encode
url_encode_overflows cs h = full cs (3 * length cs) h refl
