-- ===== src/Secio/Proposal.antt =====
-- secio/propose.c: the message with which a peer offers its algorithms, over the library of protobuf
-- messages.
use c_libp2p.Base.{
  ℕ, zero, suc, ◌+◌, ◌-◌, List, [], ◌∷◌, ◌++◌, Option, none, some, length, take, drop,
}
use c_libp2p.Base.{Bool, true, false, ltb, leb, ◌==◌, ◌&&◌, if◌then◌else◌}
use c_libp2p.Transport.{Res, ok, failed, undefined, stuck}
use c_libp2p.Protobuf.{Protobuf, appended}
use c_libp2p.Secio.{Propose}

-- libp2p_secio_propose_new
abbrev pub propose_new : Propose
propose_new = record { rand = []; public_key = []; exchanges = []; ciphers = []; hashes = [] }

-- libp2p_secio_propose_protobuf_encode_size
abbrev pub propose_encode_size : Propose → ℕ
propose_encode_size pr =
    11
    + length pr.rand
    + (11 + length pr.public_key)
    + (11 + length pr.ciphers)
    + (11 + length pr.exchanges)
    + (11 + length pr.hashes)

-- the fields of a message, from the first on
abbrev pub put_field : ℕ → Propose → List ℕ → Propose
put_field field out text =
    if field == 1
    then record out { rand = text }
    else if field == 2
    then record out { public_key = text }
    else if field == 3
    then record out { exchanges = text }
    else if field == 4
    then record out { ciphers = text }
    else record out { hashes = text }

module _ (p : Protobuf) where
  open p use {encode_bytes, decode_field, decode_bytes}

  abbrev pub encode_next : ℕ → ℕ → List ℕ → Option (List ℕ) → Option (List ℕ)
  encode_next max field text none = none
  encode_next max field text (some written) =
      appended written (encode_bytes field text (max - length written))

  -- libp2p_secio_propose_protobuf_encode
  unfoldable pub propose_encode : Propose → ℕ → Option (List ℕ)
  propose_encode pr max = encode_next max 5 pr.hashes (
      encode_next max 4 pr.ciphers (
        encode_next max 3 pr.exchanges
          (encode_next max 2 pr.public_key (encode_next max 1 pr.rand (some [])))))

  abbrev pub put_bytes :
      ℕ
      → List ℕ
      → Option (List ℕ × ℕ)
      → (List ℕ → Bool → Propose → Res Propose)
      → Propose
      → Res Propose
  put_bytes field buf none again out = failed
  put_bytes field buf (some (text, size)) again out =
      again (drop size buf) true (put_field field out text)

  -- A round at a field: one that is unknown is reported, and the bytes behind its tag are taken for
  -- the next field. `buffer_length - pos` wraps around where the tag has led out of the buffer.
  abbrev pub propose_round :
      List ℕ
      → Option (ℕ × ℕ × ℕ)
      → Bool
      → (List ℕ → Bool → Propose → Res Propose)
      → Propose
      → Res Propose
  propose_round buf none got again out = failed
  propose_round buf (some (field, type, bytes)) got again out =
      if leb 1 field && leb field 5
      then (if ltb (length buf) bytes
          then undefined
          else put_bytes field (drop bytes buf) (decode_bytes (drop bytes buf)) again out)
      else again (drop bytes buf) got out

  -- `while (pos < buffer_length)`, on the bytes from `pos` on. The tag may be read from as many bytes
  -- as the whole buffer has, be they behind its end, in `beyond`.
  unfoldable pub propose_rounds : (beyond : List ℕ) → ℕ → ℕ → List ℕ → Bool → Propose → Res Propose
  propose_rounds beyond size fuel [] got out = if got then ok out else failed
  propose_rounds beyond size zero (b ∷ bs) got out = stuck
  propose_rounds beyond size (suc fuel) (b ∷ bs) got out =
      propose_round (b ∷ bs) (decode_field (take size ((b ∷ bs) ++ beyond))) got
        (propose_rounds beyond size fuel) out

  -- libp2p_secio_propose_protobuf_decode
  unfoldable pub propose_decode : (beyond buffer : List ℕ) → Res Propose
  propose_decode beyond buffer =
      propose_rounds beyond (length buffer) (length buffer) buffer false propose_new
