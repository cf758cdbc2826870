-- ===== src/Identify/Response.antt =====
-- libp2p_identify_send_response on a reliable stream.
use c_libp2p.Base.{
  ℕ, ◌-◌, ◌≤◌, ◌≡◌, refl, sym, ap, ◌∙◌, List, [], ◌∷◌, ◌++◌, length, length-append, arith,
}
use c_libp2p.Base.{Option, some, append_assoc, append-nil, ◌==◌, false, if_false, drop_all, subst}
use c_libp2p.Transport.{Transport, Reliable, ok}
use c_libp2p.Transport.Triple.{Did, Did-pure, Did-bind}
use c_libp2p.Protobuf.{Protobuf, IsProtobuf, appended}
use c_libp2p.Identify.{
  Identity, protocol_text, agent_text, encoded_with, put_key, put_addrs, response,
}
use c_libp2p.Identify.{written, write_rounds, write_all, send_response}
use c_libp2p.Protobuf.Layout.{field_bytes, message}
use c_libp2p.Identify.Fields.{addr_fields, key_field, fields_of}

module _ (p : Protobuf) (lawful : IsProtobuf p) where
  open lawful use {tag, size}

  appended_lem :
      (encode : List ℕ → ℕ → Option (List ℕ)) (field : ℕ) (text start : List ℕ)
      → ((room : ℕ)
          → length (field_bytes p lawful field text) ≤ room
          → encode text room ≡ some (field_bytes p lawful field text))
      → length (start ++ field_bytes p lawful field text) ≤ 4096
      → encoded_with encode text (some start) ≡ some (start ++ field_bytes p lawful field text)
  appended_lem encode field text start enc fits = ap (appended start) (
      enc (4096 - length start)
        (omega (arith, length-append start (field_bytes p lawful field text))))

  front_fits : (a b c : List ℕ) → length (a ++ (b ++ c)) ≤ 4096 → length (a ++ b) ≤ 4096
  front_fits a b c h = omega (arith, length-append a (b ++ c), length-append b c, length-append a b)

  put_addrs_lem :
      (addrs : List (List ℕ)) (start : List ℕ)
      → length (start ++ message p lawful (addr_fields addrs)) ≤ 4096
      → put_addrs p addrs (some start) ≡ some (start ++ message p lawful (addr_fields addrs))
  put_addrs_lem [] start fits = ap some (sym (append-nil start))
  put_addrs_lem (a ∷ addrs) start fits =
      let one : List ℕ = field_bytes p lawful 2 a in
      let more : List ℕ = message p lawful (addr_fields addrs) in
      let group : (start ++ one) ++ more ≡ start ++ (one ++ more) = append_assoc start one more in
      ap (put_addrs p addrs) (
        appended_lem (p.encode_bytes 2) 2 a start (lawful.encode_lem 2 a)
          (front_fits start one more fits))
      ∙ put_addrs_lem addrs (start ++ one) (subst (λ l. length l ≤ 4096) (sym group) fits)
      ∙ ap some group

  put_key_lem :
      (key : List ℕ) (addrs : List (List ℕ)) (start : List ℕ)
      → length (start ++ message p lawful (key_field key (addr_fields addrs))) ≤ 4096
      → put_addrs p addrs (put_key p key (some start))
        ≡ some (start ++ message p lawful (key_field key (addr_fields addrs)))
  put_key_lem [] addrs start fits = put_addrs_lem addrs start fits
  put_key_lem (b ∷ bs) addrs start fits =
      let one : List ℕ = field_bytes p lawful 1 (b ∷ bs) in
      let more : List ℕ = message p lawful (addr_fields addrs) in
      let group : (start ++ one) ++ more ≡ start ++ (one ++ more) = append_assoc start one more in
      ap (put_addrs p addrs) (
        appended_lem (p.encode_bytes 1) 1 (b ∷ bs) start (lawful.encode_lem 1 (b ∷ bs))
          (front_fits start one more fits))
      ∙ put_addrs_lem addrs (start ++ one) (subst (λ l. length l ≤ 4096) (sym group) fits)
      ∙ ap some group

  -- The message has the fields of the peer, where it fits the buffer.
  pub response_lem :
      (me : Identity)
      → length (message p lawful (fields_of me)) ≤ 4096
      → response p me ≡ some (message p lawful (fields_of me))
  unfolding response
  response_lem me fits =
      let a : List ℕ = field_bytes p lawful 5 protocol_text in
      let b : List ℕ = field_bytes p lawful 6 agent_text in
      let c : List ℕ = message p lawful (key_field me.public_key (addr_fields me.listen_addrs)) in
      let group : (a ++ b) ++ c ≡ a ++ (b ++ c) = append_assoc a b c in
      let put : Option (List ℕ) → Option (List ℕ) =
        λ w. put_addrs p me.listen_addrs (put_key p me.public_key w) in
      ap (λ w. put (encoded_with (p.encode_string 6) agent_text w))
        (appended_lem (p.encode_string 5) 5 protocol_text []
          (lawful.encode_string_lem 5 protocol_text) (front_fits [] a (b ++ c) fits))
      ∙ ap put (
          appended_lem (p.encode_string 6) 6 agent_text a (lawful.encode_string_lem 6 agent_text)
            (front_fits a b c fits))
      ∙ put_key_lem me.public_key me.listen_addrs (a ++ b)
          (subst (λ l. length l ≤ 4096) (sym group) fits)
      ∙ ap some group

module _ {t : Transport} (rel : Reliable t) where
  open rel use {pending, sent, Usable}

  write_all_at :
      (s : t.State) (b : ℕ) (bs : List ℕ)
      → Usable s
      → write_all t (b ∷ bs) s ≡ (ok tt, (t.write s (b ∷ bs)).1)
  unfolding write_rounds
  write_all_at s b bs u =
      let s' : t.State = (t.write s (b ∷ bs)).1 in
      let some_taken : (length (b ∷ bs) == 0) ≡ false = ground arith in
      ap (λ n. written t n (b ∷ bs) (write_rounds t (length bs)) s')
        (rel.write_all s (b ∷ bs) u (λ e. cc))
      ∙ if_false (length (b ∷ bs) == 0) _ _ some_taken
      ∙ ap (λ l. write_rounds t (length bs) l s')
          (drop_all (length (b ∷ bs)) (b ∷ bs) (omega arith))

  -- All of the bytes are written, in one call.
  write_all-Did :
      (s : t.State) (bs rest : List ℕ)
      → Usable s
      → pending s ≡ rest
      → Did rel s (ok tt) rest bs (write_all t bs s)
  unfolding write_rounds
  write_all-Did s [] rest u e = Did-pure rel u e
  write_all-Did s (b ∷ bs) rest u e = rw (write_all_at s b bs u) (record {
    value = refl;
    left = rel.pending-write s (b ∷ bs) u ∙ e;
    wrote = rel.sent-write s (b ∷ bs) u (λ e. cc);
    usable = rel.write-Usable s (b ∷ bs) u;
  })

  -- The response is the length of the message, and the message.
  pub send_response-Did :
      (p : Protobuf) (lawful : IsProtobuf p) (me : Identity) (s : t.State) (rest : List ℕ)
      → length (message p lawful (fields_of me)) ≤ 4096
      → Usable s
      → pending s ≡ rest
      → Did rel s
          (ok tt)
          rest
          (lawful.size (length (message p lawful (fields_of me)))
            ++ message p lawful (fields_of me))
          (send_response p t me s)
  unfolding send_response
  send_response-Did p lawful me s rest fits u e =
      let msg : List ℕ = message p lawful (fields_of me) in
      rw (response_lem p lawful me fits, lawful.encode_varint_lem (length msg))
        (Did-bind rel (write_all t (lawful.size (length msg))) _
          (write_all-Did s (lawful.size (length msg)) rest u e)
          λ u' left. write_all-Did _ msg rest u' left)
