-- ===== src/Protobuf.antt =====
-- The library of protobuf messages, which is not part of the repository, as an interface: what the
-- code calls of it, and what it relies on.
pub mod Layout
pub mod Tests
use c_libp2p.Base.{ℕ, ◌+◌, ◌≤◌, ◌<◌, ◌^◌, ◌≡◌, List, [], ◌∷◌, ◌++◌, Option, none, some, length}

-- `encode_bytes` is protobuf_encode_length_delimited, of a field number, its bytes and the room in
-- the buffer, and `encode_string` protobuf_encode_string. `decode_bytes` and `decode_string` are
-- protobuf_decode_length_delimited and protobuf_decode_string: the bytes behind a length, and the
-- number of bytes read. `decode_field` is protobuf_decode_field_and_type, of the bytes that it may
-- read: the field number, the wire type and the number of bytes read. `varint` is varint_decode: the
-- value, and the number of bytes read, 0 if there is no varint. `encode_varint` is varint_encode.
pub record Protobuf : Type 0 where
  pub encode_bytes : ℕ → List ℕ → ℕ → Option (List ℕ)
  pub encode_string : ℕ → List ℕ → ℕ → Option (List ℕ)
  pub decode_string : List ℕ → Option (List ℕ × ℕ)
  pub decode_bytes : List ℕ → Option (List ℕ × ℕ)
  pub encode_varint : ℕ → List ℕ
  pub decode_field : List ℕ → Option (ℕ × ℕ × ℕ)
  pub varint : List ℕ → ℕ × ℕ

-- WIRETYPE_LENGTH_DELIMITED
abbrev pub length_delimited : ℕ
length_delimited = 2

-- `if (!encode(...)) return 0; written += bytes;`
abbrev pub appended : List ℕ → Option (List ℕ) → Option (List ℕ)
appended written none = none
appended written (some bs) = some (written ++ bs)

-- the bytes of a varint: each but the last has its highest bit set
abbrev pub IsVarint : List ℕ → Type 0
IsVarint [] = ⊥
IsVarint (b ∷ []) = b < 128
IsVarint (b ∷ c ∷ bs) = (128 ≤ b) × (b < 256) × IsVarint (c ∷ bs)

-- A field is its tag, its length and its bytes, each of which is read as it was written.
pub record IsProtobuf (p : Protobuf) : Type 0 where
  pub tag : ℕ → List ℕ
  pub size : ℕ → List ℕ
  pub encode_lem :
      (field : ℕ) (text : List ℕ) (room : ℕ)
      → length (tag field ++ size (length text) ++ text) ≤ room
      → p.encode_bytes field text room ≡ some (tag field ++ size (length text) ++ text)
  pub encode_string_lem :
      (field : ℕ) (text : List ℕ) (room : ℕ)
      → length (tag field ++ size (length text) ++ text) ≤ room
      → p.encode_string field text room ≡ some (tag field ++ size (length text) ++ text)
  pub decode_string_lem :
      (text rest : List ℕ)
      → length text < 2 ^ 64
      → p.decode_string (size (length text) ++ (text ++ rest))
        ≡ some (text, length (size (length text)) + length text)
  pub decode_bytes_lem :
      (text rest : List ℕ)
      → length text < 2 ^ 64
      → p.decode_bytes (size (length text) ++ (text ++ rest))
        ≡ some (text, length (size (length text)) + length text)
  pub encode_varint_lem : (n : ℕ) → p.encode_varint n ≡ size n
  pub decode_tag :
      (field : ℕ) (rest : List ℕ)
      → p.decode_field (tag field ++ rest) ≡ some (field, length_delimited, length (tag field))
  pub varint-size :
      (n : ℕ) (rest : List ℕ) → n < 2 ^ 64 → p.varint (size n ++ rest) ≡ (n, length (size n))
  pub tag_short : (field : ℕ) → field < 16 → length (tag field) ≡ 1
  pub tag_pos : (field : ℕ) → 0 < length (tag field)
  pub size_pos : (n : ℕ) → 0 < length (size n)
  pub size-IsVarint : (n : ℕ) → n < 2 ^ 64 → IsVarint (size n)
  pub size_short : (n : ℕ) → n < 2 ^ 64 → length (size n) ≤ 10
