-- ===== src/Identify.antt =====
-- v2/src/identify/identify_v2.c: each peer tells the other its key and its addresses, in a protobuf
-- with a length before it. The library of protobuf messages is the parameter `p`; what follows from a
-- key, libp2p_crypto_public_key_protobuf_decode with libp2p_crypto_public_key_to_peer_id, is the
-- parameter `peer_id_of`, of a buffer and the size that is given for it. `malloc` is taken to
-- succeed, and the log is left out.
pub mod Fields
pub mod Lengths
pub mod Response
pub mod Heard
pub mod Introduced
mod Tests
use c_libp2p.Base.{
  ℕ, zero, suc, ◌+◌, ◌-◌, List, [], ◌∷◌, ◌++◌, Option, none, some, length, drop, codes, c_string,
}
use c_libp2p.Base.{Bool, true, false, leb, ◌==◌, ◌&&◌, not, if◌then◌else◌, bit_and}
use c_libp2p.Transport.{
  Transport, Res, ok, failed, undefined, stuck, M, ◌>>=◌, ◌>>◌, pure, fail, guard,
}
use c_libp2p.Transport.{read_byte, read_full}
use c_libp2p.Protobuf.{Protobuf, appended, length_delimited}
use c_libp2p.Multiaddr.{MultiAddress, new_from_string}

-- what libp2p_identify_send_response tells of the store: the key, empty where it is NULL, and the
-- addresses
pub record Identity : Type 0 where
  pub public_key : List ℕ
  pub listen_addrs : List (List ℕ)

-- IdentifyInfo; the size of the key stands beside it
pub record IdentifyInfo : Type 0 where
  pub public_key : Option (List ℕ × ℕ)
  pub listen_addrs : List (List ℕ)
  pub protocols : List (List ℕ)
  pub observed_addr : Option (List ℕ)
  pub protocol_version : Option (List ℕ)
  pub agent_version : Option (List ℕ)

-- libp2p_identify_info_new
abbrev pub info_new : IdentifyInfo
info_new = record {
  public_key = none;
  listen_addrs = [];
  protocols = [];
  observed_addr = none;
  protocol_version = none;
  agent_version = none;
}

-- the part of struct Libp2pPeer that is filled in
pub record RemotePeer : Type 0 where
  pub peer_id : Option (List ℕ)
  pub addrs : List MultiAddress

abbrev pub protocol_text : List ℕ
protocol_text = codes "ipfs/0.1.0"

abbrev pub agent_text : List ℕ
agent_text = codes "c-ipfs/0.1.0"

-- a part that is encoded into the rest of the buffer of 4096 bytes
abbrev pub encoded_with :
    (List ℕ → ℕ → Option (List ℕ)) → List ℕ → Option (List ℕ) → Option (List ℕ)
encoded_with encode text none = none
encoded_with encode text (some written) = appended written (encode text (4096 - length written))

-- a field that the receiver knows, at its string and the number of bytes behind the tag
abbrev pub take_field : ℕ → List ℕ → ℕ → IdentifyInfo → IdentifyInfo
take_field field text size info =
    if field == 1
    then record info { public_key = some (text, size) }
    else if field == 2
    then record info { listen_addrs = info.listen_addrs ++ text ∷ [] }
    else if field == 3
    then record info { protocols = info.protocols ++ text ∷ [] }
    else if field == 4
    then record info { observed_addr = some text }
    else if field == 5
    then record info { protocol_version = some text }
    else record info { agent_version = some text }

abbrev pub known_field :
    ℕ
    → List ℕ
    → Option (List ℕ × ℕ)
    → (List ℕ → IdentifyInfo → Res IdentifyInfo)
    → IdentifyInfo
    → Res IdentifyInfo
known_field field buf none again info = failed
known_field field buf (some (text, size)) again info =
    again (drop size buf) (take_field field text size info)

-- A field with an unknown number is passed over only where it has a length.
abbrev pub unknown_field :
    ℕ
    → List ℕ
    → Option (List ℕ × ℕ)
    → (List ℕ → IdentifyInfo → Res IdentifyInfo)
    → IdentifyInfo
    → Res IdentifyInfo
unknown_field type buf none again info = again buf info
unknown_field type buf (some (text, size)) again info =
    again (if type == length_delimited then drop size buf else buf) info

-- the loop over the addresses that were received
abbrev pub push_parsed : Res MultiAddress → Res RemotePeer → Res RemotePeer
push_parsed (ok ma) (ok peer) = ok (record peer { addrs = ma ∷ peer.addrs })
push_parsed (ok ma) r = r
push_parsed failed r = r
push_parsed undefined r = undefined
push_parsed stuck r = stuck

abbrev pub push_addrs : List (List ℕ) → Res RemotePeer → Res RemotePeer
push_addrs [] r = r
push_addrs (a ∷ addrs) r = push_addrs addrs (push_parsed (new_from_string (c_string a)) r)

abbrev pub renamed : Option (List ℕ) → RemotePeer → RemotePeer
renamed none peer = peer
renamed (some id) peer = record peer { peer_id = some id }

module _ (peer_id_of : List ℕ → ℕ → Option (List ℕ)) where
  abbrev pub by_key : Option (List ℕ × ℕ) → IdentifyInfo → RemotePeer → Res RemotePeer
  by_key none info peer = ok peer
  by_key (some (key, size)) info peer =
      if leb 1 size
      then push_addrs info.listen_addrs (ok (renamed (peer_id_of key size) peer))
      else ok peer

  -- the part of libp2p_identify_receive that fills in the peer
  unfoldable pub identified : IdentifyInfo → RemotePeer → Res RemotePeer
  identified info peer = by_key info.public_key info peer

  abbrev pub parsed : Res IdentifyInfo → RemotePeer → Res RemotePeer
  parsed (ok info) peer = identified info peer
  parsed failed peer = failed
  parsed undefined peer = undefined
  parsed stuck peer = stuck

module _ (t : Transport) where
  open t use {State, write}

  -- the bytes of a varint, read one by one into an array with room for `room` of them
  unfoldable pub prefix_rounds : ℕ → M State (List ℕ)
  prefix_rounds zero = fail
  prefix_rounds (suc room) =
      let more = prefix_rounds room in
      do
        b ← read_byte t
        if bit_and b 128 == 0 then pure (b ∷ []) else (do bs ← more; pure (b ∷ bs))

  -- identify_write_all: each round writes a byte at least, so as many rounds as bytes are enough
  abbrev pub written : Option ℕ → List ℕ → (List ℕ → M State (Unit {0})) → M State (Unit {0})
  written none bs again s = (failed, s)
  written (some n) bs again s = if n == 0 then (failed, s) else again (drop n bs) s

  unfoldable pub write_rounds : ℕ → List ℕ → M State (Unit {0})
  write_rounds fuel [] s = (ok tt, s)
  write_rounds zero (b ∷ bs) s = (stuck, s)
  write_rounds (suc fuel) (b ∷ bs) s =
      written (write s (b ∷ bs)).0 (b ∷ bs) (write_rounds fuel) (write s (b ∷ bs)).1

  abbrev pub write_all : List ℕ → M State (Unit {0})
  write_all bs = write_rounds (length bs) bs

module _ (p : Protobuf) where
  open p use {encode_bytes, encode_string, decode_string, encode_varint, decode_field, varint}

  abbrev pub put_key : List ℕ → Option (List ℕ) → Option (List ℕ)
  put_key [] written = written
  put_key (b ∷ bs) written = encoded_with (encode_bytes 1) (b ∷ bs) written

  abbrev pub put_addrs : List (List ℕ) → Option (List ℕ) → Option (List ℕ)
  put_addrs [] written = written
  put_addrs (a ∷ addrs) written = put_addrs addrs (encoded_with (encode_bytes 2) a written)

  -- the message of libp2p_identify_send_response
  unfoldable pub response : Identity → Option (List ℕ)
  response me = put_addrs me.listen_addrs (
      put_key me.public_key (
        encoded_with (encode_string 6) agent_text
          (encoded_with (encode_string 5) protocol_text (some []))))

  abbrev pub info_round :
      List ℕ
      → Option (ℕ × ℕ × ℕ)
      → (List ℕ → IdentifyInfo → Res IdentifyInfo)
      → IdentifyInfo
      → Res IdentifyInfo
  info_round buf none again info = failed
  info_round buf (some (field, type, bytes)) again info =
      if leb 1 field && leb field 6
      then known_field field (drop bytes buf) (decode_string (drop bytes buf)) again info
      else unknown_field type (drop bytes buf) (decode_string (drop bytes buf)) again info

  -- `while (pos < msg_len)`, on the bytes from `pos` on, with `fuel` rounds at most
  unfoldable pub info_rounds : ℕ → List ℕ → IdentifyInfo → Res IdentifyInfo
  info_rounds fuel [] info = ok info
  info_rounds zero (b ∷ bs) info = stuck
  info_rounds (suc fuel) (b ∷ bs) info =
      info_round (b ∷ bs) (decode_field (b ∷ bs)) (info_rounds fuel) info

  module _ (t : Transport) where
    open t use {State}

    -- identify_read_varint_length
    unfoldable pub read_varint_length : M State ℕ
    read_varint_length = do
      prefix ← prefix_rounds t 16
      guard ((varint prefix).1 == length prefix)
      pure (varint prefix).0

    abbrev pub send_message : Option (List ℕ) → M State (Unit {0})
    send_message none = fail
    send_message (some msg) = write_all t (encode_varint (length msg)) >> write_all t msg

    -- libp2p_identify_send_response
    unfoldable pub send_response : Identity → M State (Unit {0})
    send_response me = send_message (response me)

    -- libp2p_identify_receive
    unfoldable pub receive : (List ℕ → ℕ → Option (List ℕ)) → RemotePeer → M State RemotePeer
    receive peer_id_of peer = do
      n ← read_varint_length
      guard (not (n == 0))
      body ← read_full t n
      λ s. (parsed peer_id_of (info_rounds (length body) body info_new) peer, s)
