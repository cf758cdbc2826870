-- ===== src/Identify/Heard.antt =====
-- What the loop of libp2p_identify_receive makes of a message.
use c_libp2p.Base.{
  ℕ, zero, suc, ◌+◌, ◌≤◌, ◌<◌, ◌^◌, ◌≡◌, refl, sym, ap, ◌∙◌, List, [], ◌∷◌, ◌++◌, length,
  length-append, arith,
}
use c_libp2p.Base.{
  Option, some, none, drop, leb, true, ◌&&◌, if_true, append_assoc, append-nil, take_drop_lem,
}
use c_libp2p.Transport.{ok}
use c_libp2p.Protobuf.{Protobuf, IsProtobuf}
use c_libp2p.Protobuf.Layout.{field_then, drop_two, regroup}
use c_libp2p.Identify.{Identity, IdentifyInfo, info_new, protocol_text, agent_text}
use c_libp2p.Identify.{take_field, known_field, info_round, info_rounds}
use c_libp2p.Protobuf.Layout.{Fields, field_bytes, message}
use c_libp2p.Identify.Fields.{addr_fields, key_field, fields_of, AreKnown}

module _ (p : Protobuf) (lawful : IsProtobuf p) where
  open lawful use {tag, size}

  -- the bytes of a string with the length before it
  abbrev pub string_size : List ℕ → ℕ
  string_size text = length (size (length text)) + length text

  at_byte :
      (fuel : ℕ) (buf : List ℕ) (info : IdentifyInfo)
      → 0 < length buf
      → info_rounds p (suc fuel) buf info
        ≡ info_round p buf (p.decode_field buf) (info_rounds p fuel) info
  unfolding info_rounds
  at_byte fuel [] info h = absurd (omega arith)
  at_byte fuel (b ∷ bs) info h = refl

  known_lem : (field : ℕ) → 1 ≤ field → field ≤ 6 → (leb 1 field && leb field 6) ≡ true
  known_lem field h h' = ground arith

  -- One round takes one field that is known.
  field_lem :
      (fuel field : ℕ) (text rest : List ℕ) (info : IdentifyInfo)
      → 1 ≤ field
      → field ≤ 6
      → length text < 2 ^ 64
      → info_rounds p (suc fuel) (field_bytes p lawful field text ++ rest) info
        ≡ info_rounds p fuel rest (take_field field text (string_size text) info)
  field_lem fuel field text rest info h h' small =
      let value : List ℕ = size (length text) ++ (text ++ rest) in
      let buf : List ℕ = field_then p lawful field text rest in
      let again = info_rounds p fuel in
      let behind : drop (length (tag field)) buf ≡ value =
        (take_drop_lem (tag field) value (length (tag field)) refl).1 in
      ap (λ l. info_rounds p (suc fuel) l info) (regroup p lawful field text rest)
      ∙ at_byte fuel buf info (omega (arith, length-append (tag field) value, lawful.tag_pos field))
      ∙ ap (λ o. info_round p buf o (info_rounds p fuel) info) (lawful.decode_tag field value)
      ∙ if_true (leb 1 field && leb field 6) _ _ (known_lem field h h')
      ∙ ap (λ l. known_field field l (p.decode_string l) (info_rounds p fuel) info) behind
      ∙ ap (λ o. known_field field value o (info_rounds p fuel) info)
          (lawful.decode_string_lem text rest small)
      ∙ ap (λ l. info_rounds p fuel l (take_field field text (string_size text) info))
          (drop_two (size (length text)) text rest (string_size text) refl)

  abbrev take_all : Fields → IdentifyInfo → IdentifyInfo
  take_all [] info = info
  take_all ((field, text) ∷ fs) info = take_all fs (take_field field text (string_size text) info)

  -- Known fields are all taken, in as many rounds.
  fields_lem :
      (fs : Fields) (fuel : ℕ) (info : IdentifyInfo)
      → AreKnown fs
      → length fs ≤ fuel
      → info_rounds p fuel (message p lawful fs) info ≡ ok (take_all fs info)
  unfolding info_rounds
  fields_lem [] fuel info k h = refl
  fields_lem ((field, text) ∷ fs) zero info k h = absurd (omega arith)
  fields_lem ((field, text) ∷ fs) (suc fuel) info ((low, high, small), k) h =
      field_lem fuel field text (message p lawful fs) info low high small
      ∙ fields_lem fs fuel (take_field field text (string_size text) info) k (omega arith)

  abbrev pub heard_key : List ℕ → Option (List ℕ × ℕ)
  heard_key [] = none
  heard_key (b ∷ bs) = some (b ∷ bs, string_size (b ∷ bs))

  -- what the other peer knows afterwards
  abbrev pub heard : Identity → IdentifyInfo
  heard me = record {
    public_key = heard_key me.public_key;
    listen_addrs = me.listen_addrs;
    protocols = [];
    observed_addr = none;
    protocol_version = some protocol_text;
    agent_version = some agent_text;
  }

  take_addrs :
      (addrs : List (List ℕ)) (info : IdentifyInfo)
      → take_all (addr_fields addrs) info
        ≡ record info { listen_addrs = info.listen_addrs ++ addrs }
  take_addrs [] info =
      ap (λ l. record info { listen_addrs = l }) (sym (append-nil info.listen_addrs))
  take_addrs (a ∷ addrs) info =
      take_addrs addrs (record info { listen_addrs = info.listen_addrs ++ a ∷ [] })
      ∙ ap (λ l. record info { listen_addrs = l }) (append_assoc info.listen_addrs (a ∷ []) addrs)

  take_me : (me : Identity) → take_all (fields_of me) info_new ≡ heard me
  take_me me = with_key me.public_key me.listen_addrs
    where
      with_key :
          (key : List ℕ) (addrs : List (List ℕ))
          → take_all
              ((5, protocol_text) ∷ (6, agent_text) ∷ key_field key (addr_fields addrs))
              info_new
            ≡ heard (record { public_key = key; listen_addrs = addrs })
      with_key [] addrs = take_addrs addrs _
      with_key (b ∷ bs) addrs = take_addrs addrs _

  pub info_rounds_lem :
      (me : Identity) (fuel : ℕ)
      → AreKnown (fields_of me)
      → length (fields_of me) ≤ fuel
      → info_rounds p fuel (message p lawful (fields_of me)) info_new ≡ ok (heard me)
  info_rounds_lem me fuel k h = fields_lem (fields_of me) fuel info_new k h ∙ ap ok (take_me me)
