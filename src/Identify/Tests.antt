-- ===== src/Identify/Tests.antt =====
-- Two peers over concrete streams.
use c_libp2p.Base.{
  ℕ, ◌≡◌, refl, List, [], ◌∷◌, ◌++◌, Option, some, none, codes, arith, take, c_string, bytes_eq,
  tokens, cut,
}
use c_libp2p.Transport.{ok}
use c_libp2p.Transport.Wire.{Wire, wire, wire_reliable}
use c_libp2p.Protobuf.Tests.{plain, plain_lawful}
use c_libp2p.Multiaddr.{MultiAddress, new_from_string, parse, part_of, atoi_port}
use c_libp2p.Identify.{Identity, RemotePeer, send_response, receive, response, write_rounds}
use c_libp2p.Identify.Introduced.{response_bytes, receive-send_response}

-- a peer is named by the first bytes of its key
abbrev named : List ℕ → ℕ → Option (List ℕ)
named key size = some (take 2 key)

abbrev me : Identity
me = record { public_key = codes "key"; listen_addrs = codes "/ip4/1/tcp/80" ∷ [] }

abbrev stranger : RemotePeer
stranger = record { peer_id = none; addrs = [] }

abbrev line : List ℕ → Wire
line bs = record { inbox = bs; sizes = 0 ∷ 3 ∷ []; outbox = [] }

abbrev message_bytes : List ℕ
message_bytes = response_bytes plain plain_lawful named me

abbrev address : MultiAddress
address = record {
  raw_string = codes "/ip4/1/tcp/80";
  family = 2;
  ip = some (codes "1");
  port = 80;
}

-- The key of three bytes is taken for four.
receive-send_response_example :
    ((send_response plain wire me (line [])).0 ≡ ok tt)
    × ((receive plain wire named stranger (line (message_bytes ++ 7 ∷ []))).0
        ≡ ok (record { peer_id = some (codes "ke"); addrs = address ∷ [] }))
    × ((receive plain wire named stranger (line (message_bytes ++ 7 ∷ []))).1.inbox ≡ 7 ∷ [])
unfolding send_response response write_rounds new_from_string parse part_of atoi_port bytes_eq
    tokens cut c_string
receive-send_response_example =
    receive-send_response plain plain_lawful named wire_reliable wire_reliable (line [])
      (line (message_bytes ++ 7 ∷ [])) me (address ∷ []) stranger (codes "ke") message_bytes
      (7 ∷ []) (λ e. cc) refl (refl, tt) (omega arith) tt tt refl refl
