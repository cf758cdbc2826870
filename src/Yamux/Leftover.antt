-- ===== src/Yamux/Leftover.antt =====
-- The part of a payload that a read leaves in the buffer.
use c_libp2p.Base.{ℕ, suc, ◌+◌, ◌-◌, ◌<◌, ◌≡◌, sym, ap, ◌∙◌, List, [], ◌++◌, min}
use c_libp2p.Base.{length, take, drop, arith, not, ◌||◌, true, false, ltb}
use c_libp2p.Base.{Bool-cases, inl, inr, if◌then◌else◌}
use c_libp2p.Transport.{Transport, Reliable, Res, ok, failed, forever}
use c_libp2p.Yamux.{Header, Session, type_data, flag_fin, has_flag}
use c_libp2p.Yamux.Stream.{StreamContext, Chan, stream_read, read_round, is_closed}
use c_libp2p.Yamux.Frames.{chan_at, Fits, wire_of}
use c_libp2p.Yamux.Read.{IsReady, after_payload}
use c_libp2p.Yamux.Delivery.{stream_read-Ran}

abbrev pub unread : StreamContext → ℕ
unread x = length x.read_buffer - x.read_buffer_pos

-- what a second read gets of a frame of which `count` bytes have been taken
abbrev pub second_result : Header → ℕ → ℕ → List ℕ → Res (List ℕ)
second_result h count count' bs =
    if has_flag h flag_fin
    then failed
    else ok (take (min count' (length bs - count)) (drop count bs))

module _ (t : Transport) where
  read_closed :
      (c : Chan t) (fuel count : ℕ)
      → is_closed t c ≡ true
      → stream_read t (suc fuel) count c ≡ (failed, c)
  unfolding stream_read forever read_round
  read_closed c fuel count shut = rw shut

  -- While the buffer holds bytes, a read takes them from there: as many as are asked for or as
  -- there are, in order, and the connection is not touched.
  pub read_buffered :
      (n : t.State) (s : Session) (x : StreamContext) (fuel count : ℕ)
      → s.closed ≡ false
      → x.closed ≡ false
      → x.read_buffer_pos < length x.read_buffer
      → let k = min count (unread x) in
        stream_read t (suc fuel) count (chan_at n (s, x)) ≡ (
          ok (take k (drop x.read_buffer_pos x.read_buffer)),
          chan_at n (s, record x { read_buffer_pos = x.read_buffer_pos + k }),
        )
  unfolding stream_read forever read_round
  read_buffered n s x fuel count so xo more =
      let open_test : not (s.closed || x.closed) ≡ true = ground arith in
      let some_left : ltb x.read_buffer_pos (length x.read_buffer) ≡ true = ground arith in
      rw (open_test, some_left)

module _ {t : Transport} (rel : Reliable t) where
  open rel use {pending, sent, Usable}

  second_read :
      (n : t.State) (s : Session) (x : StreamContext) (fuel count count' : ℕ) (h : Header)
      (bs : List ℕ)
      → IsReady s x
      → length bs ≡ h.length_
      → count < h.length_
      → let out = stream_read t (suc fuel) count' (chan_at n (s, after_payload count h bs x)) in
        (out.0 ≡ second_result h count count' bs) × (out.1.conn.net ≡ n)
  second_read n s x fuel count count' h bs ready len more =
      elim (Bool-cases (has_flag h flag_fin)) [
        | inl fin ↦
            let shut : s.closed || (if has_flag h flag_fin then true else x.closed) ≡ true =
              ground arith in
            let out = read_closed t (chan_at n (s, after_payload count h bs x)) fuel count' shut in
            (
              ap (λ o. o.0) out
                  ∙ sym (
                      ap
                        (λ b.
                          if b
                          then failed
                          else ok (take (min count' (length bs - count)) (drop count bs)))
                        fin),
              ap (λ o. o.1.conn.net) out,
            )
        | inr no_fin ↦
            let open_ : (if has_flag h flag_fin then true else x.closed) ≡ false = ground arith in
            let at : min count h.length_ ≡ count = omega arith in
            let out =
              read_buffered t n s (after_payload count h bs x) fuel count' ready.session_open open_
                (omega arith) in
            (
              ap (λ o. o.0) out
                  ∙ ap (λ k. ok (take (min count' (length bs - k)) (drop k bs))) at
                  ∙ sym (
                      ap
                        (λ b.
                          if b
                          then failed
                          else ok (take (min count' (length bs - count)) (drop count bs)))
                        no_fin),
              ap (λ o. o.1.conn.net) out,
            )
      ]

  -- Two reads of one DATA frame. The second goes on where the first stopped, and reads nothing
  -- from the connection, if the frame does not end the stream. If the frame carries FIN, the
  -- second read fails, and the rest of the payload cannot be had any more.
  pub read_twice :
      (n : t.State) (s : Session) (x : StreamContext) (fuel fuel' count count' : ℕ) (h : Header)
      (bs rest : List ℕ)
      → IsReady s x
      → Fits h
      → h.type ≡ type_data
      → h.stream_id ≡ x.stream_id
      → length bs ≡ h.length_
      → count < h.length_
      → Usable n
      → pending n ≡ wire_of h ++ (bs ++ rest)
      → let first = stream_read t (suc fuel) count (chan_at n (s, x)) in
        let second = stream_read t (suc fuel') count' first.1 in
        (first.0 ≡ ok (take count bs))
        × (second.0 ≡ second_result h count count' bs)
        × (pending second.1.conn.net ≡ rest)
  read_twice n s x fuel fuel' count count' h bs rest ready f is_data own len more u e =
      let y : StreamContext = after_payload count h bs x in
      let d =
        stream_read-Ran rel [] s x (suc fuel) count h bs rest ready tt (omega arith) f is_data own
          len (omega arith) u e in
      let all : min count h.length_ ≡ count = omega arith in
      let next = second_read d.net s x fuel' count count' h bs ready len more in
      (
        ap (λ o. o.0) d.result ∙ ap (λ k. ok (take k bs)) all,
        ap (λ o. (stream_read t (suc fuel') count' o.1).0) d.result ∙ next.0,
        ap (λ o. pending (stream_read t (suc fuel') count' o.1).1.conn.net) d.result
            ∙ ap pending next.1
            ∙ d.left,
      )
