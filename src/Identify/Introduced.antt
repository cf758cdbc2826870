-- ===== src/Identify/Introduced.antt =====
-- Two peers, of which one tells the other who it is.
use c_libp2p.Base.{
  ℕ, ◌≤◌, ◌≡◌, ◌≢◌, refl, sym, ap, ◌∙◌, List, [], ◌∷◌, ◌++◌, length, Option, append_assoc, arith,
  not, ◌==◌, true, leb, if_true, some, c_string, append_cancel_left,
}
use c_libp2p.Transport.{Transport, Reliable, ok, read_full}
use c_libp2p.Transport.Triple.{Did, Did-pure, Did-bind, Did-guard}
use c_libp2p.Transport.ReadFull.{read_full-Did}
use c_libp2p.Protobuf.{Protobuf, IsProtobuf}
use c_libp2p.Identify.{
  Identity, RemotePeer, info_rounds, info_new, parsed, identified, read_varint_length,
  send_response, receive,
}
use c_libp2p.Protobuf.Layout.{message, length-message}
use c_libp2p.Identify.Fields.{fields_of, fields_of-AreKnown}
use c_libp2p.Identify.Lengths.{read_varint_length-Did}
use c_libp2p.Identify.Response.{send_response-Did}
use c_libp2p.Identify.Heard.{heard, heard_key, string_size, info_rounds_lem}
use c_libp2p.Multiaddr.{MultiAddress, new_from_string}
use c_libp2p.Identify.{by_key, renamed, push_parsed, push_addrs}

module _ (p : Protobuf) (lawful : IsProtobuf p) (peer_id_of : List ℕ → ℕ → Option (List ℕ)) where
  -- the bytes of a peer's response
  abbrev pub response_bytes : Identity → List ℕ
  response_bytes me =
      lawful.size (length (message p lawful (fields_of me))) ++ message p lawful (fields_of me)

  parsed_lem :
      (me : Identity) (peer : RemotePeer)
      → length (message p lawful (fields_of me)) ≤ 4096
      → parsed peer_id_of
          (info_rounds p
            (length (message p lawful (fields_of me)))
            (message p lawful (fields_of me))
            info_new)
          peer
        ≡ identified peer_id_of (heard p lawful me) peer
  parsed_lem me peer fits =
      ap (λ r. parsed peer_id_of r peer)
        (info_rounds_lem p lawful me (length (message p lawful (fields_of me)))
          (fields_of-AreKnown p lawful me fits) (length-message p lawful (fields_of me)))

  module _ {t : Transport} (rel : Reliable t) where
    open rel use {pending, sent, Usable}

    receive-Did :
        (me : Identity) (peer : RemotePeer) (s : t.State) (rest : List ℕ)
        → length (message p lawful (fields_of me)) ≤ 4096
        → Usable s
        → pending s ≡ response_bytes me ++ rest
        → Did rel s
            (identified peer_id_of (heard p lawful me) peer)
            rest
            []
            (receive p t peer_id_of peer s)
    unfolding receive
    receive-Did me peer s rest fits u e =
        let msg : List ℕ = message p lawful (fields_of me) in
        let n : ℕ = length msg in
        let some_bytes : not (n == 0) ≡ true =
          ground (arith, length-message p lawful (fields_of me)) in
        Did-bind rel (read_varint_length p t) _
          (read_varint_length-Did rel p lawful s n (msg ++ rest) (omega arith) u
            (e ∙ append_assoc (lawful.size n) msg rest))
          λ u' left. Did-guard rel _ some_bytes (
            Did-bind rel (read_full t n) _ (read_full-Did rel _ msg rest u' left)
              λ u'' left'. rw (parsed_lem me peer fits) (Did-pure rel u'' left'))

-- addresses that are parsed, and the results
abbrev pub AreParsed : List (List ℕ) → List MultiAddress → Type 0
AreParsed [] [] = Unit
AreParsed [] (m ∷ ms) = ⊥
AreParsed (a ∷ addrs) [] = ⊥
AreParsed (a ∷ addrs) (m ∷ ms) = (new_from_string (c_string a) ≡ ok m) × AreParsed addrs ms

-- each of these put before the others in turn
abbrev pub onto : List MultiAddress → List MultiAddress → List MultiAddress
onto [] known = known
onto (m ∷ ms) known = onto ms (m ∷ known)

push_lem :
    (addrs : List (List ℕ)) (ms : List MultiAddress) (peer : RemotePeer)
    → AreParsed addrs ms
    → push_addrs addrs (ok peer) ≡ ok (record peer { addrs = onto ms peer.addrs })
push_lem [] [] peer h = refl
push_lem [] (m ∷ ms) peer h = elim h [ ]
push_lem (a ∷ addrs) [] peer h = elim h [ ]
push_lem (a ∷ addrs) (m ∷ ms) peer (e, h) =
    ap (λ r. push_addrs addrs (push_parsed r (ok peer))) e
    ∙ push_lem addrs ms (record peer { addrs = m ∷ peer.addrs }) h

module _ (p : Protobuf) (lawful : IsProtobuf p) (peer_id_of : List ℕ → ℕ → Option (List ℕ)) where
  identified_lem :
      (me : Identity) (ms : List MultiAddress) (peer : RemotePeer) (id : List ℕ)
      → me.public_key ≢ []
      → peer_id_of me.public_key (string_size p lawful me.public_key) ≡ some id
      → AreParsed me.listen_addrs ms
      → identified peer_id_of (heard p lawful me) peer
        ≡ ok (record { peer_id = some id; addrs = onto ms peer.addrs })
  unfolding identified
  identified_lem me ms peer id ne named h = with_key me.public_key ne named
    where
      with_key :
          (key : List ℕ)
          → key ≢ []
          → peer_id_of key (string_size p lawful key) ≡ some id
          → by_key peer_id_of
              (heard_key p lawful key)
              (heard p lawful (record { public_key = key; listen_addrs = me.listen_addrs }))
              peer
            ≡ ok (record { peer_id = some id; addrs = onto ms peer.addrs })
      with_key [] ne named = absurd (ne refl)
      with_key (b ∷ bs) ne named =
          let size : ℕ = string_size p lawful (b ∷ bs) in
          let some_bytes : leb 1 size ≡ true = ground arith in
          if_true (leb 1 size) _ (ok peer) some_bytes
          ∙ ap (λ o. push_addrs me.listen_addrs (ok (renamed o peer))) named
          ∙ push_lem me.listen_addrs ms (record peer { peer_id = some id }) h

  -- One peer sends its response, which fits the buffer, on a reliable stream; the other finds it on
  -- its stream. Both succeed; the receiver then has the id that follows from the key, of which it
  -- takes the bytes and the bytes of their length for the size, and the addresses before those that
  -- it had, the last one first. What follows the response is left.
  pub receive-send_response :
      {t t' : Transport} (rel : Reliable t) (rel' : Reliable t') (n : t.State) (s : t'.State)
      (me : Identity) (ms : List MultiAddress) (peer : RemotePeer) (id bytes rest : List ℕ)
      → me.public_key ≢ []
      → peer_id_of me.public_key (string_size p lawful me.public_key) ≡ some id
      → AreParsed me.listen_addrs ms
      → length (message p lawful (fields_of me)) ≤ 4096
      → rel.Usable n
      → rel'.Usable s
      → rel.sent (send_response p t me n).1 ≡ rel.sent n ++ bytes
      → rel'.pending s ≡ bytes ++ rest
      → ((send_response p t me n).0 ≡ ok tt)
        × ((receive p t' peer_id_of peer s).0
            ≡ ok (record { peer_id = some id; addrs = onto ms peer.addrs }))
        × (rel'.pending (receive p t' peer_id_of peer s).1 ≡ rest)
  receive-send_response rel rel' n s me ms peer id bytes rest ne named h fits u u' wrote ready =
      let sends = send_response-Did rel p lawful me n (rel.pending n) fits u refl in
      let same : bytes ≡ response_bytes p lawful peer_id_of me =
        append_cancel_left (rel.sent n) (sym wrote ∙ sends.wrote) in
      let gets =
        receive-Did p lawful peer_id_of rel' me peer s rest fits u'
          (ready ∙ ap (λ l. l ++ rest) same) in
      (sends.value, gets.value ∙ identified_lem me ms peer id ne named h, gets.left)
