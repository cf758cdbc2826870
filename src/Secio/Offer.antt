-- ===== src/Secio/Offer.antt =====
-- A proposal arrives as it was sent.
use c_libp2p.Base.{
  ℕ, zero, suc, ◌+◌, ◌-◌, ◌≤◌, ◌<◌, ◌^◌, ◌≡◌, refl, sym, ap, subst, ◌∙◌, List, [], ◌∷◌, ◌++◌,
}
use c_libp2p.Base.{
  Option, some, length, length-append, append_assoc, append-nil, take, drop, take_drop_lem, arith,
}
use c_libp2p.Base.{Bool, true, false, ltb, leb, ◌&&◌, if_true, if_false}
use c_libp2p.Transport.{ok}
use c_libp2p.Protobuf.{Protobuf, IsProtobuf, appended}
use c_libp2p.Protobuf.Layout.{
  Fields, field_bytes, message, field_then, drop_two, regroup, length-message,
}
use c_libp2p.Secio.{Propose}
use c_libp2p.Secio.Proposal.{
  propose_new, propose_encode_size, put_field, encode_next, propose_encode, put_bytes,
}
use c_libp2p.Secio.Proposal.{propose_round, propose_rounds, propose_decode}

abbrev pub fields_of : Propose → Fields
fields_of pr =
    (1, pr.rand) ∷ (2, pr.public_key) ∷ (3, pr.exchanges) ∷ (4, pr.ciphers) ∷ (5, pr.hashes) ∷ []

-- no field is too large for its length
abbrev pub IsSmall : Propose → Type 0
IsSmall pr = propose_encode_size pr < 2 ^ 64

take_front : (a r : List ℕ) (n : ℕ) → length a ≤ n → take n (a ++ r) ≡ a ++ take (n - length a) r
take_front [] r n h = ap (λ k. take k r) (omega arith)
take_front (x ∷ a) r zero h = absurd (omega arith)
take_front (x ∷ a) r (suc n) h =
    let e : n - length a ≡ suc n - suc (length a) = omega arith in
    ap (λ l. x ∷ l) (take_front a r n (omega arith)) ∙ ap (λ k. x ∷ (a ++ take k r)) e

module _ (p : Protobuf) (lawful : IsProtobuf p) where
  open lawful use {tag, size}

  encode_next_lem :
      (max field : ℕ) (text start : List ℕ)
      → length (start ++ field_bytes p lawful field text) ≤ max
      → encode_next p max field text (some start) ≡ some (start ++ field_bytes p lawful field text)
  encode_next_lem max field text start fits = ap (appended start) (
      lawful.encode_lem field text (max - length start)
        (omega (arith, length-append start (field_bytes p lawful field text))))

  -- A field has a tag of one byte, and a length of ten at most.
  field_fits :
      (field : ℕ) (text : List ℕ)
      → field < 16
      → length text < 2 ^ 64
      → length (field_bytes p lawful field text) ≤ 11 + length text
  field_fits field text h small = omega (
    arith,
    length-append (tag field ++ size (length text)) text,
    length-append (tag field) (size (length text)),
    lawful.tag_short field h,
    lawful.size_short (length text) small,
  )

  at_byte :
      (beyond : List ℕ) (n fuel : ℕ) (buf : List ℕ) (got : Bool) (out : Propose)
      → 0 < length buf
      → propose_rounds p beyond n (suc fuel) buf got out
        ≡ propose_round p buf
            (p.decode_field (take n (buf ++ beyond)))
            got
            (propose_rounds p beyond n fuel)
            out
  unfolding propose_rounds
  at_byte beyond n fuel [] got out h = absurd (omega arith)
  at_byte beyond n fuel (b ∷ bs) got out h = refl

  known_lem : (field : ℕ) → 1 ≤ field → field ≤ 5 → (leb 1 field && leb field 5) ≡ true
  known_lem field h h' = ground arith

  field_lem :
      (beyond : List ℕ) (n fuel field : ℕ) (text rest : List ℕ) (got : Bool) (out : Propose)
      → 1 ≤ field
      → field ≤ 5
      → length text < 2 ^ 64
      → 0 < n
      → propose_rounds p beyond n (suc fuel) (field_bytes p lawful field text ++ rest) got out
        ≡ propose_rounds p beyond n fuel rest true (put_field field out text)
  field_lem beyond n fuel field text rest got out h h' small some_bytes =
      let value : List ℕ = size (length text) ++ (text ++ rest) in
      let buf : List ℕ = field_then p lawful field text rest in
      let one : length (tag field) ≡ 1 = lawful.tag_short field (omega arith) in
      let seen : take n (buf ++ beyond)
          ≡ tag field ++ take (n - length (tag field)) (value ++ beyond) =
        ap (take n) (append_assoc (tag field) value beyond)
        ∙ take_front (tag field) (value ++ beyond) n (omega arith) in
      let inside : ltb (length buf) (length (tag field)) ≡ false =
        ground (arith, length-append (tag field) value) in
      let behind : drop (length (tag field)) buf ≡ value =
        (take_drop_lem (tag field) value (length (tag field)) refl).1 in
      ap (λ l. propose_rounds p beyond n (suc fuel) l got out) (regroup p lawful field text rest)
      ∙ at_byte beyond n fuel buf got out (omega (arith, length-append (tag field) value))
      ∙ ap (λ o. propose_round p buf o got (propose_rounds p beyond n fuel) out)
          (ap p.decode_field seen
            ∙ lawful.decode_tag field (take (n - length (tag field)) (value ++ beyond)))
      ∙ if_true (leb 1 field && leb field 5) _ _ (known_lem field h h')
      ∙ if_false (ltb (length buf) (length (tag field))) _ _ inside
      ∙ ap (λ l. put_bytes p field l (p.decode_bytes l) (propose_rounds p beyond n fuel) out) behind
      ∙ ap (λ o. put_bytes p field value o (propose_rounds p beyond n fuel) out)
          (lawful.decode_bytes_lem text rest small)
      ∙ ap (λ l. propose_rounds p beyond n fuel l true (put_field field out text))
          (drop_two (size (length text)) text rest (length (size (length text)) + length text) refl)

  abbrev encode_list : ℕ → Fields → Option (List ℕ) → Option (List ℕ)
  encode_list max [] w = w
  encode_list max ((field, text) ∷ fs) w = encode_list max fs (encode_next p max field text w)

  encode_list_lem :
      (max : ℕ) (fs : Fields) (start : List ℕ)
      → length (start ++ message p lawful fs) ≤ max
      → encode_list max fs (some start) ≡ some (start ++ message p lawful fs)
  encode_list_lem max [] start fits = ap some (sym (append-nil start))
  encode_list_lem max ((field, text) ∷ fs) start fits =
      let one : List ℕ = field_bytes p lawful field text in
      let more : List ℕ = message p lawful fs in
      let group : (start ++ one) ++ more ≡ start ++ (one ++ more) = append_assoc start one more in
      let fits' : length ((start ++ one) ++ more) ≤ max =
        subst (λ l. length l ≤ max) (sym group) fits in
      ap (encode_list max fs)
        (encode_next_lem max field text start (omega (arith, length-append (start ++ one) more)))
      ∙ encode_list_lem max fs (start ++ one) fits'
      ∙ ap some group

  abbrev AreKnown : Fields → Type 0
  AreKnown [] = Unit
  AreKnown ((field, text) ∷ fs) = ((1 ≤ field) × (field ≤ 5) × (length text < 2 ^ 64)) × AreKnown fs

  abbrev put_all : Fields → Propose → Propose
  put_all [] out = out
  put_all ((field, text) ∷ fs) out = put_all fs (put_field field out text)

  list_lem :
      (beyond : List ℕ) (n fuel : ℕ) (fs : Fields) (out : Propose)
      → AreKnown fs
      → length fs ≤ fuel
      → 0 < n
      → propose_rounds p beyond n fuel (message p lawful fs) true out ≡ ok (put_all fs out)
  unfolding propose_rounds
  list_lem beyond n fuel [] out k h some_bytes = refl
  list_lem beyond n zero ((field, text) ∷ fs) out k h some_bytes = absurd (omega arith)
  list_lem beyond n (suc fuel) ((field, text) ∷ fs) out ((low, high, small), k) h some_bytes =
      field_lem beyond n fuel field text (message p lawful fs) true out low high small some_bytes
      ∙ list_lem beyond n fuel fs (put_field field out text) k (omega arith) some_bytes

  all_lem :
      (beyond : List ℕ) (n fuel : ℕ) (pr : Propose)
      → AreKnown (fields_of pr)
      → 5 ≤ fuel
      → 0 < n
      → propose_rounds p beyond n fuel (message p lawful (fields_of pr)) false propose_new ≡ ok pr
  all_lem beyond n zero pr k h some_bytes = absurd (omega arith)
  all_lem beyond n (suc fuel) pr ((low, high, small), k) h some_bytes =
      let first : Propose = put_field 1 propose_new pr.rand in
      let others : Fields =
        (2, pr.public_key) ∷ (3, pr.exchanges) ∷ (4, pr.ciphers) ∷ (5, pr.hashes) ∷ [] in
      field_lem beyond n fuel 1 pr.rand (message p lawful others) false propose_new low high small
        some_bytes
      ∙ list_lem beyond n fuel others first k (omega arith) some_bytes

  small_fields : (pr : Propose) → IsSmall pr → AreKnown (fields_of pr)
  small_fields pr h = (
    (omega arith, omega arith, omega arith),
    (
      (omega arith, omega arith, omega arith),
      (
        (omega arith, omega arith, omega arith),
        ((omega arith, omega arith, omega arith), ((omega arith, omega arith, omega arith), tt)),
      ),
    ),
  )

  message_fits :
      (pr : Propose)
      → IsSmall pr
      → length (message p lawful (fields_of pr)) ≤ propose_encode_size pr
  message_fits pr h =
      let a = field_bytes p lawful 1 pr.rand in
      let b = field_bytes p lawful 2 pr.public_key in
      let c = field_bytes p lawful 3 pr.exchanges in
      let d = field_bytes p lawful 4 pr.ciphers in
      let e = field_bytes p lawful 5 pr.hashes in
      omega (
        arith,
        length-append a (b ++ (c ++ (d ++ (e ++ [])))),
        length-append b (c ++ (d ++ (e ++ []))),
        length-append c (d ++ (e ++ [])),
        length-append d (e ++ []),
        length-append e [],
        field_fits 1 pr.rand (omega arith) (omega arith),
        field_fits 2 pr.public_key (omega arith) (omega arith),
        field_fits 3 pr.exchanges (omega arith) (omega arith),
        field_fits 4 pr.ciphers (omega arith) (omega arith),
        field_fits 5 pr.hashes (omega arith) (omega arith),
      )

  -- The size that is computed for a proposal is enough to encode it, and what is encoded is decoded
  -- to the same proposal, whatever stands behind it in memory.
  pub propose_decode-propose_encode :
      (pr : Propose) (beyond : List ℕ)
      → IsSmall pr
      → (bs : List ℕ) × (propose_encode p pr (propose_encode_size pr) ≡ some bs)
        × (propose_decode p beyond bs ≡ ok pr)
  unfolding propose_encode propose_decode
  propose_decode-propose_encode pr beyond h =
      let bs : List ℕ = message p lawful (fields_of pr) in
      let enough = length-message p lawful (fields_of pr) in
      (
        bs,
        encode_list_lem (propose_encode_size pr) (fields_of pr) [] (message_fits pr h),
        all_lem beyond (length bs) (length bs) pr (small_fields pr h) (omega arith) (omega arith),
      )
