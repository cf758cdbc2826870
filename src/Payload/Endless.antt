-- ===== src/Payload/Endless.antt =====
-- A length that leads back to the start of the message.
use c_libp2p.Base.{
  ℕ, zero, suc, ◌+◌, ◌-◌, ◌%◌, ◌^◌, ◌≤◌, ◌<◌, ◌≡◌, ap, ◌∙◌, List, some, length, drop,
}
use c_libp2p.Base.{false, ltb, ◌==◌, ◌||◌, if_true, if_false, arith}
use c_libp2p.Transport.{Res, stuck}
use c_libp2p.Protobuf.{Protobuf, length_delimited}
use c_libp2p.Payload.{
  Payload, next_pos, keep_field, value_round, field_round, decode_rounds, payload_decode,
}

module _ (p : Protobuf) (input : List ℕ) where
  zero_plus : (n : ℕ) → 0 + n ≡ n
  zero_plus n = omega arith

  back_to_start :
      (field bytes n : ℕ) (again : ℕ → Payload → Res Payload) (out : Payload)
      → 0 < n
      → bytes + n ≤ 2 ^ 64
      → value_round p input field bytes (2 ^ 64 - (bytes + n), n) again out
        ≡ again 0 (keep_field field (bytes + n, 2 ^ 64 - (bytes + n)) out)
  back_to_start field bytes n again out h small =
      let back : next_pos bytes n (2 ^ 64 - (bytes + n)) ≡ 0 = wraps bytes n small in
      let taken : (n == 0 || ltb (length input) (next_pos bytes n (2 ^ 64 - (bytes + n)))) ≡ false =
        ground (arith, back) in
      if_false _ _ _ taken
      ∙ ap (λ pos. again pos (keep_field field (bytes + n, 2 ^ 64 - (bytes + n)) out)) back
    where
      wraps : (bytes n : ℕ) → bytes + n ≤ 2 ^ 64 → (bytes + n + (2 ^ 64 - (bytes + n))) % 2 ^ 64 ≡ 0
      wraps bytes n h = omega arith

  same_round :
      (fuel field bytes n : ℕ) (out : Payload)
      → 0 < length input
      → 0 < n
      → bytes + n ≤ 2 ^ 64
      → p.decode_field input ≡ some (field, length_delimited, bytes)
      → p.varint (drop bytes input) ≡ (2 ^ 64 - (bytes + n), n)
      → decode_rounds p input fuel 0 out ≡ stuck
  unfolding decode_rounds
  same_round zero field bytes n out some_bytes h small e e' =
      if_true (ltb 0 (length input)) _ _ (ground arith)
  same_round (suc fuel) field bytes n out some_bytes h small e e' =
      if_true (ltb 0 (length input)) _ _ (ground arith)
      ∙ ap (λ o. field_round p input 0 o (decode_rounds p input fuel) out) e
      ∙ ap
          (λ q.
            value_round p input field q (p.varint (drop q input)) (decode_rounds p input fuel) out)
          (zero_plus bytes)
      ∙ ap (λ v. value_round p input field bytes v (decode_rounds p input fuel) out) e'
      ∙ back_to_start field bytes n (decode_rounds p input fuel) out h small
      ∙ same_round fuel field bytes n (keep_field field (bytes + n, 2 ^ 64 - (bytes + n)) out)
          some_bytes h small e e'

  -- A message that starts with a field whose length, a 64-bit varint, is the negation of the number
  -- of bytes up to its end, keeps the decoder in its loop for ever, whatever the number of rounds.
  pub payload_decode_endless :
      (fuel field bytes n : ℕ)
      → 0 < length input
      → 0 < n
      → bytes + n ≤ 2 ^ 64
      → p.decode_field input ≡ some (field, length_delimited, bytes)
      → p.varint (drop bytes input) ≡ (2 ^ 64 - (bytes + n), n)
      → payload_decode p input fuel ≡ stuck
  unfolding payload_decode
  payload_decode_endless fuel field bytes n some_bytes h small e e' =
      same_round fuel field bytes n _ some_bytes h small e e'
