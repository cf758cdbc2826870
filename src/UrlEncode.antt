-- ===== src/UrlEncode.antt =====
-- utils/urlencode.c: texts with their special characters escaped. A `char` is taken to be signed:
-- the index `*src >> 4` of a byte from 128 on is then outside the table of digits.
pub mod Escapes
mod Tests
use c_libp2p.Base.{
  ℕ, zero, suc, length, ◌+◌, ◌-◌, ◌*◌, ◌/◌, ◌%◌, List, [], ◌∷◌, Option, none, some, bit_or, bit_and,
}
use c_libp2p.Base.{Bool, true, false, ltb, leb, ◌==◌, ◌&&◌, ◌||◌, if◌then◌else◌}

-- isalnum, in the C locale
unfoldable pub isalnum : ℕ → Bool
isalnum c = (leb 48 c && leb c 57) || (leb 65 c && leb c 90) || (leb 97 c && leb c 122)

-- "0123456789abcdef"
unfoldable pub hex : ℕ → ℕ
hex n = if ltb n 10 then 48 + n else 87 + n

-- h2b
unfoldable pub h2b : ℕ → ℕ
h2b c =
    if leb 48 c && leb c 57
    then c - 48
    else if leb 97 c && leb c 102
    then c - 97 + 10
    else if leb 65 c && leb c 70
    then c - 65 + 10
    else 0

abbrev pub prepend : ℕ → Option (List ℕ) → Option (List ℕ)
prepend c o = elim o [ none ↦ none | some cs ↦ some (c ∷ cs) ]

-- what comes of the encoder: the bytes in its buffer, a write behind the buffer, or a read outside
-- the table of digits
pub data Encoded : Type 0 where
  encoded : List ℕ → Encoded
  overrun outside : Encoded

abbrev pub before : ℕ → Encoded → Encoded
before c (encoded cs) = encoded (c ∷ cs)
before c overrun = overrun
before c outside = outside

-- `*p++ = c`, with `room` bytes left in the buffer
abbrev pub write_byte : ℕ → ℕ → (ℕ → Encoded) → Encoded
write_byte c zero next = overrun
write_byte c (suc room) next = before c (next room)

-- the loop, and the NUL at its end
pub encode_rounds : List ℕ → ℕ → Encoded
encode_rounds [] room = write_byte 0 room (λ r. encoded [])
encode_rounds (c ∷ cs) room =
    let rest = encode_rounds cs in
    if isalnum c
    then write_byte c room rest
    else write_byte 37 room (λ r.
      if ltb c 128
      then write_byte (hex (c / 16)) r (λ r. write_byte (hex (bit_and c 15)) r rest)
      else outside)

-- libp2p_utils_url_encode: the bytes in the buffer of three bytes a character, with the NUL. The
-- buffer is then cut to them.
unfoldable pub url_encode : List ℕ → Encoded
unfolding encode_rounds
url_encode cs = encode_rounds cs (3 * length cs)

-- the byte of two digits; `|` is written with its sides exchanged
abbrev pub unescape : ℕ → ℕ → ℕ
unescape a b = bit_or (bit_and (h2b b) 15) (h2b a * 16 % 256)

-- libp2p_utils_url_decode. `none` is a read beyond the NUL.
pub url_decode : List ℕ → Option (List ℕ)
url_decode [] = some []
url_decode (c ∷ []) = if c == 37 then none else some (c ∷ [])
url_decode (c ∷ a ∷ []) = if c == 37 then none else prepend c (url_decode (a ∷ []))
url_decode (c ∷ a ∷ b ∷ cs) = elim (c == 37) [
  | true ↦ prepend (unescape a b) (url_decode cs)
  | false ↦ prepend c (url_decode (a ∷ b ∷ cs))
]
