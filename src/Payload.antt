-- ===== src/Payload.antt =====
-- v2/src/conn/noise.c: the payload of a handshake message, a protobuf with the identity key and the
-- signature of a peer, over the library of protobuf messages.
pub mod Fields
pub mod RoundTrip
pub mod Endless
mod Tests
use c_libp2p.Base.{
  ℕ, zero, suc, ◌+◌, ◌-◌, ◌%◌, ◌^◌, List, [], ◌∷◌, ◌++◌, Option, none, some, length, drop, take,
}
use c_libp2p.Base.{Bool, true, false, ltb, ◌==◌, ◌||◌, not, if◌then◌else◌}
use c_libp2p.Transport.{Res, ok, failed, stuck}
use c_libp2p.Protobuf.{Protobuf, appended, length_delimited}

-- a pointer into the message, by its offset, and the number of bytes at it; none for NULL
abbrev pub Slice : Type 0
Slice = Option (ℕ × ℕ)

-- what the decoder gives out
pub record Payload : Type 0 where
  pub key : Slice
  pub sig : Slice

-- a field is left out where its bytes are NULL or none
abbrev pub encode_part : Protobuf → ℕ → List ℕ → ℕ → Option (List ℕ)
encode_part p field [] room = some []
encode_part p field (b ∷ bs) room = p.encode_bytes field (b ∷ bs) room

abbrev pub encode_second : Protobuf → List ℕ → ℕ → Option (List ℕ) → Option (List ℕ)
encode_second p sig max_out none = none
encode_second p sig max_out (some first) =
    appended first (encode_part p 2 sig (max_out - length first))

-- noise_payload_encode
unfoldable pub payload_encode : Protobuf → (key sig : List ℕ) → ℕ → Option (List ℕ)
payload_encode p key sig max_out = encode_second p sig max_out (encode_part p 1 key max_out)

-- the fields that are kept
abbrev pub keep_field : ℕ → ℕ × ℕ → Payload → Payload
keep_field field s out =
    if field == 1
    then record out { key = some s }
    else if field == 2
    then record out { sig = some s }
    else out

-- where the next field is looked for, in a size_t
abbrev pub next_pos : ℕ → ℕ → ℕ → ℕ
next_pos pos varint_len data_len = (pos + varint_len + data_len) % 2 ^ 64

module _ (p : Protobuf) (input : List ℕ) where
  open p use {decode_field, varint}

  -- the rest of a round, behind the tag and the length, before the rounds after it
  abbrev pub value_round : ℕ → ℕ → ℕ × ℕ → (ℕ → Payload → Res Payload) → Payload → Res Payload
  value_round field pos (data_len, varint_len) again out =
      if varint_len == 0 || ltb (length input) (next_pos pos varint_len data_len)
      then failed
      else again (next_pos pos varint_len data_len)
          (keep_field field (pos + varint_len, data_len) out)

  abbrev pub field_round :
      ℕ → Option (ℕ × ℕ × ℕ) → (ℕ → Payload → Res Payload) → Payload → Res Payload
  field_round pos none again out = failed
  field_round pos (some (field, type, bytes)) again out =
      if type == length_delimited
      then value_round field (pos + bytes) (varint (drop (pos + bytes) input)) again out
      else failed

  -- `while (pos < in_len)`, with `fuel` rounds at most
  unfoldable pub decode_rounds : ℕ → ℕ → Payload → Res Payload
  decode_rounds zero pos out = if ltb pos (length input) then stuck else ok out
  decode_rounds (suc fuel) pos out =
      if ltb pos (length input)
      then field_round pos (decode_field (drop pos input)) (decode_rounds fuel) out
      else ok out

  -- noise_payload_decode
  unfoldable pub payload_decode : ℕ → Res Payload
  payload_decode fuel = decode_rounds fuel 0 (record { key = none; sig = none })

-- the bytes of a slice
abbrev pub bytes_at : List ℕ → Slice → List ℕ
bytes_at input none = []
bytes_at input (some (offset, size)) = take size (drop offset input)
