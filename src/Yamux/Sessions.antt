-- ===== src/Yamux/Sessions.antt =====
-- The operations of a session: how streams are accepted, pings, and how a session ends.
use c_libp2p.Base.{ℕ, suc, ◌+◌, ◌%◌, ◌^◌, ◌<◌, ◌≡◌, sym, ap, ◌∙◌, subst}
use c_libp2p.Base.{List, [], ◌∷◌, ◌++◌, Bool-cases, inl, inr}
use c_libp2p.Base.{append-nil, append_assoc, not, ◌&&◌, ◌==◌, ==_refl, true, false}
use c_libp2p.Base.{if◌then◌else◌}
use c_libp2p.Transport.{Transport, Reliable, ok, failed, M, ◌>>=◌}
use c_libp2p.Transport.{recover}
use c_libp2p.Transport.Run.{Ran-bind, Ran-then, Ran-guard, Ran-pure, Ran-bytes}
use c_libp2p.Transport.Run.{Ran-return, Ran-recover}
use c_libp2p.Yamux.{Header, Session, Pending, Conn, header_bytes, send_header}
use c_libp2p.Yamux.{read_header, has_flag, pending_exists}
use c_libp2p.Yamux.{type_window_update, type_ping, flag_ack, flag_syn}
use c_libp2p.Yamux.{initial_window}
use c_libp2p.Yamux.Stream.{StreamContext, new_context}
use c_libp2p.Yamux.Open.{ping_round, session_ping, stream_open, pending_add}
use c_libp2p.Yamux.Open.{stream_accept, next_inbound, session_goaway}
use c_libp2p.Yamux.Frames.{conn_at, RanConn, Fits, wire_of}
use c_libp2p.Yamux.Frames.{send_header-Ran, read_header-Ran}
use c_libp2p.Yamux.Opening.{pending_exists-waits, ping_taken, id_taken, IsInbound, stream_open-Ran}

module _ {t : Transport} (rel : Reliable t) where
  open rel use {pending, sent, Usable}

  -- Accepting takes the stream at the head of the queue, with the data that was kept for it,
  -- without reading from the connection; the stream is acknowledged.
  pub stream_accept-Ran :
      {n : t.State} (s : Session) (p : Pending) (ps : List Pending) (fuel : ℕ) {rest : List ℕ}
      → s.closed ≡ false
      → Usable n
      → pending n ≡ rest
      → RanConn rel n
          (ok (record (new_context p.stream_id true) { read_buffer = p.payload }))
          (record s { pending_inbound = ps })
          rest
          (header_bytes type_window_update flag_ack p.stream_id 0)
          (stream_accept t fuel (conn_at n (record s { pending_inbound = p ∷ ps })))
  unfolding stream_accept next_inbound
  stream_accept-Ran {n} s p ps fuel so u e =
      let s' : Session = record s { pending_inbound = ps } in
      let send : M (Conn t) (Unit {0}) = send_header t type_window_update flag_ack p.stream_id 0 in
      Ran-guard rel conn_at _ (ap not so) (
        Ran-bytes rel conn_at (append-nil (header_bytes type_window_update flag_ack p.stream_id 0))
          (Ran-bind rel conn_at (recover send) _ {l = s'}
            (Ran-recover rel conn_at send {l = s'}
              (send_header-Ran rel s' type_window_update flag_ack p.stream_id 0 u e))
            λ n' u' left. Ran-pure rel conn_at u' left))

  -- A ping sends the next value and succeeds on the pong that carries it.
  pub session_ping-Ran :
      {n : t.State} (s : Session) (fuel : ℕ) (h : Header) (rest : List ℕ)
      → s.closed ≡ false
      → Fits h
      → h.type ≡ type_ping
      → has_flag h flag_ack ≡ true
      → h.length_ ≡ s.ping_seq
      → Usable n
      → pending n ≡ wire_of h ++ rest
      → RanConn rel n
          (ok tt)
          (ping_taken s)
          rest
          (header_bytes type_ping 0 0 s.ping_seq)
          (session_ping t (suc fuel) (conn_at n s))
  unfolding session_ping ping_round
  session_ping-Ran {n} s fuel h rest so f ping ack value u e =
      let is_pong : (h.type == type_ping && has_flag h flag_ack && h.length_ == s.ping_seq) ≡ true =
        rw (ping, ack, value) (==_refl s.ping_seq) in
      Ran-guard rel conn_at _ (ap not so) (
        Ran-bytes rel conn_at (append-nil (header_bytes type_ping 0 0 s.ping_seq)) (
          Ran-bind rel conn_at (send_header t type_ping 0 0 s.ping_seq) _ {l = ping_taken s}
            (send_header-Ran rel (ping_taken s) type_ping 0 0 s.ping_seq u e)
            λ n1 u1 left1. Ran-return rel conn_at fuel (ping_round t s.ping_seq) (
              Ran-then rel conn_at (read_header t) _
                (read_header-Ran rel (ping_taken s) h rest f u1 left1)
                λ n2 u2 left2. rw is_pong (Ran-pure rel conn_at u2 left2))))

module _ (t : Transport) where
  closed-goaway : (c : Conn t) (code : ℕ) → (session_goaway t code c).1.session.closed ≡ true
  unfolding session_goaway
  closed-goaway c code = elim (Bool-cases c.session.closed) [
    | inl shut ↦ rw shut
    | inr not_shut ↦ elim (Bool-cases c.session.attached) [
      | inl here ↦ rw (not_shut, here)
      | inr gone ↦ rw (not_shut, gone)
    ]
  ]

  closed_refuses :
      (c : Conn t) (fuel : ℕ)
      → c.session.closed ≡ true
      → (stream_open t fuel c ≡ (failed, c))
        × (stream_accept t fuel c ≡ (failed, c))
        × (session_ping t fuel c ≡ (failed, c))
  unfolding stream_open stream_accept session_ping
  closed_refuses c fuel shut = (rw shut, rw shut, rw shut)

  -- After a GO_AWAY was asked for, the session is closed, and neither opening nor accepting a
  -- stream nor a ping goes through or touches the connection, whatever the stream below does.
  pub goaway_closes :
      (c : Conn t) (code fuel : ℕ)
      → let c' = (session_goaway t code c).1 in
        (c'.session.closed ≡ true)
        × (stream_open t fuel c' ≡ (failed, c'))
        × (stream_accept t fuel c' ≡ (failed, c'))
        × (session_ping t fuel c' ≡ (failed, c'))
  goaway_closes c code fuel =
      let shut = closed-goaway c code in
      let refused = closed_refuses (session_goaway t code c).1 fuel shut in
      (shut, refused.0, refused.1, refused.2)

module _ {t : Transport} (rel : Reliable t) where
  open rel use {pending, sent, Usable}

  -- A SYN that comes in while `open` waits for its ACK is not lost: the accept that follows returns
  -- its stream and reads nothing. Its ACK is sent twice, once by each of the two.
  pub accept_after_open :
      {n : t.State} (s : Session) (q h : Header) (fuel fuel' : ℕ) (rest : List ℕ)
      → s.closed ≡ false
      → pending_exists q.stream_id s.pending_inbound ≡ false
      → IsInbound s.next_stream_id q
      → 1 < fuel
      → Fits h
      → h.type ≡ type_window_update
      → h.stream_id ≡ s.next_stream_id
      → has_flag h flag_ack ≡ true
      → Usable n
      → pending n ≡ wire_of q ++ (wire_of h ++ rest)
      → let ack = header_bytes type_window_update flag_ack q.stream_id 0 in
        RanConn rel n
          (ok (new_context q.stream_id true))
          (id_taken s)
          rest
          (header_bytes type_window_update flag_syn s.next_stream_id 0 ++ (ack ++ ack))
          ((stream_open t fuel >>= λ x. stream_accept t fuel') (conn_at n s))
  accept_after_open {n} s q h fuel fuel' rest so new inbound enough f update own ack u e =
      let id : ℕ = s.next_stream_id in
      let syn : List ℕ = header_bytes type_window_update flag_syn id 0 in
      let ack_bytes : List ℕ = header_bytes type_window_update flag_ack q.stream_id 0 in
      let x : StreamContext = record (new_context id true) {
        send_window = (initial_window + h.length_) % 2 ^ 32;
      } in
      let p : Pending = record { stream_id = q.stream_id; payload = [] } in
      let opened : RanConn rel n (ok x) (pending_add q.stream_id [] (id_taken s)) rest
          (syn ++ (ack_bytes ++ [])) (stream_open t fuel (conn_at n s)) =
        subst
          (λ b.
            RanConn rel n (ok x) (if b then id_taken s else pending_add q.stream_id [] (id_taken s))
              rest (syn ++ ((if b then [] else ack_bytes) ++ []))
              (stream_open t fuel (conn_at n s)))
          (sym (pending_exists-waits q.stream_id s.pending_inbound) ∙ new)
          (stream_open-Ran rel (q ∷ []) s fuel h rest so (inbound, tt) enough f update own ack u
            (e ∙ ap (λ l. l ++ (wire_of h ++ rest)) (sym (append-nil (wire_of q))))) in
      Ran-bytes rel conn_at
        (append_assoc syn (ack_bytes ++ []) ack_bytes
          ∙ ap (λ l. syn ++ (l ++ ack_bytes)) (append-nil ack_bytes))
        (Ran-bind rel conn_at (stream_open t fuel) _ opened
          λ n' u' left. stream_accept-Ran rel (id_taken s) p s.pending_inbound fuel' so u' left)
