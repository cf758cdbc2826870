-- ===== src/Payload/Tests.antt =====
-- A payload in the encoding of the tests, and the theorems over it.
use c_libp2p.Base.{◌+◌, ◌-◌, ◌^◌, ◌≡◌, refl, ◌∷◌, arith}
use c_libp2p.Transport.{stuck}
use c_libp2p.Protobuf.Tests.{plain, plain_size}
use c_libp2p.Payload.{payload_decode}
use c_libp2p.Payload.Endless.{payload_decode_endless}

payload_decode_endless_example :
    payload_decode plain (3 ∷ plain_size (2 ^ 64 - (1 + 10))) 1000 ≡ stuck
payload_decode_endless_example =
    payload_decode_endless plain (3 ∷ plain_size (2 ^ 64 - (1 + 10))) 1000 3 1 10 (omega arith)
      (omega arith) (omega arith) refl refl
