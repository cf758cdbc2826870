-- ===== src/Payload/RoundTrip.antt =====
-- What the encoder writes, the decoder finds.
use c_libp2p.Base.{ℕ, ◌≡◌, List, [], ◌∷◌, ◌++◌}
use c_libp2p.Base.{none, length}
use c_libp2p.Transport.{ok}
use c_libp2p.Protobuf.{Protobuf, IsProtobuf}
use c_libp2p.Payload.{Payload, payload_decode}
use c_libp2p.Payload.{bytes_at}

module _ (p : Protobuf) (lawful : IsProtobuf p) where
  open lawful use {tag, size, encode_lem}

  -- what the encoder writes of a field
  abbrev pub written : ℕ → List ℕ → List ℕ
  written field [] = []
  written field (b ∷ bs) = tag field ++ size (length (b ∷ bs)) ++ (b ∷ bs)

  -- what the decoder finds
  abbrev pub Finds : List ℕ → ℕ → (key sig : List ℕ) → Type 0
  Finds input fuel key sig =
      (out : Payload) × (payload_decode p input fuel ≡ ok out)
      × (bytes_at input out.key ≡ key)
      × (bytes_at input out.sig ≡ sig)

  abbrev nothing : Payload
  nothing = record { key = none; sig = none }
