-- ===== src/Yamux/Open.antt =====
-- libp2p_yamux_stream_open, libp2p_yamux_stream_accept, libp2p_yamux_session_ping and
-- libp2p_yamux_session_goaway: the operations of a session. A loop takes fuel, one unit a frame.
use c_libp2p.Base.{ℕ, ◌+◌, ◌%◌, ◌^◌, List, [], ◌∷◌, Option, none, some}
use c_libp2p.Base.{Bool, true, false, not, ◌&&◌, ◌||◌, ◌==◌, ltb, if◌then◌else◌}
use c_libp2p.Transport.{Transport, Res, ok, failed, undefined, stuck, M, ◌>>=◌, ◌>>◌, pure}
use c_libp2p.Transport.{guard, attempt, recover, forever, read_full}
use c_libp2p.Yamux.{
  Header, Pending, Session, Conn, has_flag, on_net, on_session, session, close_net,
}
use c_libp2p.Yamux.{send_header, read_header, handle_control_frame, discard_payload, pending_exists}
use c_libp2p.Yamux.{pending_append, type_data, type_window_update, type_ping, type_go_away}
use c_libp2p.Yamux.{flag_syn, flag_ack}
use c_libp2p.Yamux.Stream.{StreamContext, Chan, new_context, chan, on_ctx, on_conn, stream_close}

-- yamux_pending_add
abbrev pub pending_add : ℕ → List ℕ → Session → Session
pending_add id bs s = record s {
  pending_inbound = record { stream_id = id; payload = bs } ∷ s.pending_inbound;
}

abbrev pub is_control : Header → Bool
is_control h = h.type == type_ping || h.type == type_go_away

-- a frame that opens a stream
abbrev pub is_syn : Header → Bool
is_syn h = (h.type == type_window_update || h.type == type_data) && has_flag h flag_syn

abbrev pub map_res : {A B : Type 0} → (A → B) → Res A → Res B
map_res f (ok a) = ok (f a)
map_res f failed = failed
map_res f undefined = undefined
map_res f stuck = stuck

module _ (t : Transport) where
  -- A run on a new stream's context, which it returns.
  abbrev pub with_context : {A : Type 0} → StreamContext → M (Chan t) A → M (Conn t) StreamContext
  with_context x m c =
      let start : Chan t = record { conn = c; ctx = x } in
      (map_res (λ a. (m start).1.ctx) (m start).0, (m start).1.conn)

  -- the bytes of a payload, or none where they cannot be read
  abbrev pub payload_or_nothing : ℕ → M (Conn t) (List ℕ)
  payload_or_nothing n = do
    got ← recover (on_net t (read_full t n))
    pure (elim got [ none ↦ [] | some bs ↦ bs ])

  -- a SYN of another stream that arrives while `open` waits for its ACK
  unfoldable pub queue_syn : Header → M (Conn t) (Unit {0})
  queue_syn h = do
    s ← session t
    if pending_exists h.stream_id s.pending_inbound then pure tt else (do
      attempt (send_header t type_window_update flag_ack h.stream_id 0)
      bs ←
          (if h.type == type_data && ltb 0 h.length_ then payload_or_nothing h.length_ else pure [])
      on_session t (pending_add h.stream_id bs))

  -- a DATA frame of a queued stream
  unfoldable pub queue_data : Header → M (Conn t) (Unit {0})
  queue_data h =
      if ltb 0 h.length_
      then (do
        bs ← payload_or_nothing h.length_
        on_session t
            (λ s. record s { pending_inbound = pending_append h.stream_id bs s.pending_inbound }))
      else pure tt

  -- one round of the loop of `open`: a value once the ACK is seen
  unfoldable pub open_round : M (Chan t) (Option (Unit {0}))
  open_round = do
    h ← on_conn t (read_header t)
    c ← chan t
    if is_control h
        then (on_conn t (handle_control_frame t h) >> pure none)
        else if h.type == type_window_update && h.stream_id == c.ctx.stream_id
        then (do
          on_ctx t (λ x. record x { send_window = (x.send_window + h.length_) % 2 ^ 32 })
          pure (if has_flag h flag_ack then some tt else none))
        else if is_syn h
        then (on_conn t (queue_syn h) >> pure none)
        else if h.type == type_data && pending_exists h.stream_id c.conn.session.pending_inbound
        then (on_conn t (queue_data h) >> pure none)
        else (on_conn t (discard_payload t h.length_) >> pure none)

  -- libp2p_yamux_stream_open
  unfoldable pub stream_open : ℕ → M (Conn t) StreamContext
  stream_open fuel = do
    s ← session t
    guard (not s.closed)
    on_session t (λ s. record s { next_stream_id = (s.next_stream_id + 2) % 2 ^ 32 })
    send_header t type_window_update flag_syn s.next_stream_id 0
    with_context (new_context s.next_stream_id false)
        (do forever fuel open_round; on_ctx t (λ x. record x { syn_ack_received = true }))

  -- one round of yamux_wait_for_syn
  unfoldable pub wait_round : M (Conn t) (Option Header)
  wait_round = do
    h ← read_header t
    if is_control h
        then (handle_control_frame t h >> pure none)
        else if is_syn h
        then pure (some h)
        else (discard_payload t h.length_ >> pure none)

  -- the stream id and the first bytes of the stream that `accept` returns
  unfoldable pub next_inbound : ℕ → M (Conn t) Pending
  next_inbound fuel = do
    s ← session t
    elim s.pending_inbound [
      | p ∷ ps ↦ (on_session t (λ s. record s { pending_inbound = ps }) >> pure p)
      | [] ↦ (do
        h ← forever fuel wait_round
        bs ←
            (if h.type == type_data && ltb 0 h.length_
              then on_net t (read_full t h.length_)
              else pure [])
        pure (record { stream_id = h.stream_id; payload = bs }))
    ]

  -- libp2p_yamux_stream_accept
  unfoldable pub stream_accept : ℕ → M (Conn t) StreamContext
  stream_accept fuel = do
    s ← session t
    guard (not s.closed)
    p ← next_inbound fuel
    let x = record (new_context p.stream_id true) { read_buffer = p.payload }
    sent ← recover (send_header t type_window_update flag_ack p.stream_id 0)
    elim sent [
      | some u ↦ pure x
      | none ↦ (λ c. (failed, stream_close t (record { conn = c; ctx = x })))
    ]

  -- one round of the loop of `ping`, which waits for `value`
  unfoldable pub ping_round : ℕ → M (Conn t) (Option (Unit {0}))
  ping_round value = do
    h ← read_header t
    if h.type == type_ping && has_flag h flag_ack && h.length_ == value
        then pure (some tt)
        else (handle_control_frame t h >> discard_payload t h.length_ >> pure none)

  -- libp2p_yamux_session_ping
  unfoldable pub session_ping : ℕ → M (Conn t) (Unit {0})
  session_ping fuel = do
    s ← session t
    guard (not s.closed)
    on_session t (λ s. record s { ping_seq = (s.ping_seq + 1) % 2 ^ 32 })
    send_header t type_ping 0 0 s.ping_seq
    forever fuel (ping_round s.ping_seq)

  -- libp2p_yamux_session_goaway
  unfoldable pub session_goaway : ℕ → M (Conn t) (Unit {0})
  session_goaway code = do
    s ← session t
    if s.closed then pure tt else (do
      attempt (send_header t type_go_away 0 0 code)
      on_session t (λ s. record s { closed = true })
      if s.attached
          then (close_net t >> on_session t (λ s. record s { attached = false }))
          else pure tt)

  -- libp2p_yamux_session_free, up to the memory that it frees
  unfoldable pub session_free : M (Conn t) (Unit {0})
  session_free = do s ← session t; if s.attached && not s.closed then close_net t else pure tt
