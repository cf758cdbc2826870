-- ===== src/Identify/Fields.antt =====
-- An Identify message p lawful as a list of fields.
use c_libp2p.Base.{ℕ, ◌≤◌, ◌<◌, ◌^◌, List, [], ◌∷◌, ◌++◌, length, length-append, arith}
use c_libp2p.Protobuf.Layout.{Fields, field_bytes, message, field_size}
use c_libp2p.Protobuf.{Protobuf, IsProtobuf}
use c_libp2p.Identify.{Identity, protocol_text, agent_text}

abbrev pub addr_fields : List (List ℕ) → Fields
addr_fields [] = []
addr_fields (a ∷ addrs) = (2, a) ∷ addr_fields addrs

abbrev pub key_field : List ℕ → Fields → Fields
key_field [] fs = fs
key_field (b ∷ bs) fs = (1, b ∷ bs) ∷ fs

-- what a peer tells of itself
abbrev pub fields_of : Identity → Fields
fields_of me =
    (5, protocol_text) ∷ (6, agent_text) ∷ key_field me.public_key (addr_fields me.listen_addrs)

-- the field numbers that the receiver knows, with strings of a size that there is
abbrev pub AreKnown : Fields → Type 0
AreKnown [] = Unit
AreKnown ((field, text) ∷ fs) = ((1 ≤ field) × (field ≤ 6) × (length text < 2 ^ 64)) × AreKnown fs

module _ (p : Protobuf) (lawful : IsProtobuf p) where
  addrs_known :
      (addrs : List (List ℕ))
      → length (message p lawful (addr_fields addrs)) ≤ 4096
      → AreKnown (addr_fields addrs)
  addrs_known [] h = tt
  addrs_known (a ∷ addrs) h =
      let total = length-append (field_bytes p lawful 2 a) (message p lawful (addr_fields addrs)) in
      (
        (omega arith, omega arith, omega (arith, field_size p lawful 2 a)),
        addrs_known addrs (omega arith),
      )

  key_known :
      (key : List ℕ) (addrs : List (List ℕ))
      → length (message p lawful (key_field key (addr_fields addrs))) ≤ 4096
      → AreKnown (key_field key (addr_fields addrs))
  key_known [] addrs h = addrs_known addrs h
  key_known (b ∷ bs) addrs h =
      let total =
        length-append (field_bytes p lawful 1 (b ∷ bs)) (message p lawful (addr_fields addrs)) in
      (
        (omega arith, omega arith, omega (arith, field_size p lawful 1 (b ∷ bs))),
        addrs_known addrs (omega arith),
      )

  pub fields_of-AreKnown :
      (me : Identity) → length (message p lawful (fields_of me)) ≤ 4096 → AreKnown (fields_of me)
  fields_of-AreKnown me h =
      let rest : List ℕ =
        message p lawful (key_field me.public_key (addr_fields me.listen_addrs)) in
      let total =
        length-append (field_bytes p lawful 5 protocol_text)
          (field_bytes p lawful 6 agent_text ++ rest) in
      let total' = length-append (field_bytes p lawful 6 agent_text) rest in
      (
        (omega arith, omega arith, omega arith),
        (
          (omega arith, omega arith, omega arith),
          key_known me.public_key me.listen_addrs (omega arith),
        ),
      )
