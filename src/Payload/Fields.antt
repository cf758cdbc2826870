-- ===== src/Payload/Fields.antt =====
-- The decoder at a field of a message.
use c_libp2p.Base.{ℕ, zero, suc, ◌+◌, ◌^◌, ◌<◌, ◌≡◌, refl, sym, ap, ◌∙◌, List, [], ◌++◌}
use c_libp2p.Base.{some, length, take, drop, length-append, take_drop_lem, append_assoc, append-nil}
use c_libp2p.Base.{true, false, ltb, ◌==◌, ◌||◌, if_true, if_false, arith}
use c_libp2p.Transport.{ok}
use c_libp2p.Protobuf.Layout.{field_then, drop_two, regroup}
use c_libp2p.Protobuf.{Protobuf, IsProtobuf}
use c_libp2p.Payload.{Payload, next_pos, keep_field, value_round, field_round, decode_rounds}
use c_libp2p.Payload.{bytes_at}

module _ (p : Protobuf) (lawful : IsProtobuf p) where
  open lawful use {tag, size, encode_lem, decode_tag, varint-size, tag_pos, size_pos}

  abbrev pub value_at : ℕ → ℕ → List ℕ → ℕ
  value_at pos field text = pos + length (tag field) + length (size (length text))

  -- One round of the decoder at a field of a message.
  pub decode_field_lem :
      (fuel field : ℕ) (pre text post : List ℕ) (out : Payload)
      → length (pre ++ field_then p lawful field text post) < 2 ^ 64
      → decode_rounds p (pre ++ field_then p lawful field text post) (suc fuel) (length pre) out
        ≡ decode_rounds p
            (pre ++ field_then p lawful field text post)
            fuel
            (value_at (length pre) field text + length text)
            (keep_field field (value_at (length pre) field text, length text) out)
  unfolding decode_rounds
  decode_field_lem fuel field pre text post out small =
      let input : List ℕ = pre ++ field_then p lawful field text post in
      let n : ℕ = length (size (length text)) in
      let pos : ℕ = length pre + length (tag field) in
      let total : length input
          ≡ length pre + (length (tag field) + (n + (length text + length post))) =
        omega (
          arith,
          length-append pre (field_then p lawful field text post),
          length-append (tag field) (size (length text) ++ (text ++ post)),
          length-append (size (length text)) (text ++ post),
          length-append text post,
        ) in
      let inside : ltb (length pre) (length input) ≡ true = ground (arith, tag_pos field) in
      let at_field : drop (length pre) input ≡ field_then p lawful field text post =
        (take_drop_lem pre (field_then p lawful field text post) (length pre) refl).1 in
      let at_size : drop pos input ≡ size (length text) ++ (text ++ post) =
        drop_two pre (tag field) (size (length text) ++ (text ++ post)) pos refl in
      let ahead : next_pos pos n (length text) ≡ pos + n + length text = omega arith in
      let fits : (n == 0 || ltb (length input) (next_pos pos n (length text))) ≡ false =
        ground (arith, size_pos (length text)) in
      if_true (ltb (length pre) (length input)) _ _ inside
      ∙ ap (λ o. field_round p input (length pre) o (decode_rounds p input fuel) out)
          (ap p.decode_field at_field ∙ decode_tag field (size (length text) ++ (text ++ post)))
      ∙ ap (λ v. value_round p input field pos v (decode_rounds p input fuel) out)
          (ap p.varint at_size ∙ varint-size (length text) (text ++ post) (omega arith))
      ∙ if_false _ _ _ fits
      ∙ ap (λ q. decode_rounds p input fuel q (keep_field field (pos + n, length text) out)) ahead

  pub bytes_at_lem :
      (field : ℕ) (pre text post : List ℕ)
      → bytes_at
          (pre ++ field_then p lawful field text post)
          (some (value_at (length pre) field text, length text))
        ≡ text
  bytes_at_lem field pre text post =
      let n : ℕ = value_at (length pre) field text in
      let front : List ℕ = tag field ++ size (length text) in
      let e : pre ++ field_then p lawful field text post ≡ pre ++ (front ++ (text ++ post)) =
        ap (λ l. pre ++ l) (sym (append_assoc (tag field) (size (length text)) (text ++ post))) in
      ap (λ l. take (length text) (drop n l)) e
      ∙ ap (take (length text)) (
          drop_two pre front (text ++ post) n
            (omega (arith, length-append (tag field) (size (length text)))))
      ∙ (take_drop_lem text post (length text) refl).0

  pub at_end :
      (input : List ℕ) (fuel pos : ℕ) (out : Payload)
      → pos ≡ length input
      → decode_rounds p input fuel pos out ≡ ok out
  unfolding decode_rounds
  at_end input zero pos out e = if_false (ltb pos (length input)) _ _ (ground arith)
  at_end input (suc fuel) pos out e = if_false (ltb pos (length input)) _ _ (ground arith)

  pub length_of :
      (field : ℕ) (text : List ℕ)
      → length (tag field ++ size (length text) ++ text) ≡ value_at 0 field text + length text
  length_of field text = omega (
    arith,
    length-append (tag field ++ size (length text)) text,
    length-append (tag field) (size (length text)),
  )

  pub alone :
      (field : ℕ) (text : List ℕ)
      → tag field ++ size (length text) ++ text ≡ field_then p lawful field text []
  alone field text =
      sym (append-nil (tag field ++ size (length text) ++ text)) ∙ regroup p lawful field text []

  pub finds_last :
      (fuel field : ℕ) (pre text : List ℕ) (out : Payload)
      → length (pre ++ field_then p lawful field text []) < 2 ^ 64
      → decode_rounds p (pre ++ field_then p lawful field text []) (suc fuel) (length pre) out
        ≡ ok (keep_field field (value_at (length pre) field text, length text) out)
  finds_last fuel field pre text out small =
      decode_field_lem fuel field pre text [] out small
      ∙ at_end (pre ++ field_then p lawful field text []) fuel
          (value_at (length pre) field text + length text) _
          (omega (
            arith,
            length-append pre (field_then p lawful field text []),
            ap length (alone field text),
            length_of field text,
          ))
