-- ===== src/Yamux/Stream.antt =====
-- yamux_stream_write, yamux_stream_read and yamux_stream_close: the operations of one stream.
use c_libp2p.Base.{ℕ, ◌+◌, ◌-◌, ◌%◌, ◌^◌, List, [], Option, none, some, min}
use c_libp2p.Base.{Bool, true, false, not, ◌&&◌, ◌||◌, ◌==◌, ltb, leb, if◌then◌else◌, length}
use c_libp2p.Base.{take, drop}
use c_libp2p.Transport.{Transport, ok, M, ◌>>=◌, ◌>>◌, pure, guard, attempt}
use c_libp2p.Transport.{recover, forever, read_full, write_full}
use c_libp2p.Yamux.{Header, Conn, has_flag, on_net, on_session, send_header}
use c_libp2p.Yamux.{read_header, handle_control_frame, discard_payload, pending_exists}
use c_libp2p.Yamux.{pending_append, type_data, type_window_update, type_ping, type_go_away}
use c_libp2p.Yamux.{flag_ack, flag_fin, initial_window, window_threshold, max_payload}

-- struct YamuxStreamContext. `read_buffer` holds `read_buffer_len` bytes; it is empty while the
-- pointer is NULL. A failed read of a payload leaves a fresh buffer behind whose bytes no call
-- can reach (`read_buffer_pos` is then `read_buffer_len`): it is left out.
pub record StreamContext : Type 0 where
  pub stream_id : ℕ
  pub send_window : ℕ
  pub recv_window : ℕ
  pub syn_ack_received : Bool
  pub closed : Bool
  pub read_buffer : List ℕ
  pub read_buffer_pos : ℕ

-- a stream over its session
pub record Chan (t : Transport) : Type 0 where
  pub conn : Conn t
  pub ctx : StreamContext

-- The context of a new stream, before its buffer is filled.
abbrev pub new_context : ℕ → Bool → StreamContext
new_context id acked = record {
  stream_id = id;
  send_window = initial_window;
  recv_window = initial_window;
  syn_ack_received = acked;
  closed = false;
  read_buffer = [];
  read_buffer_pos = 0;
}

-- `count` after the two cuts of yamux_stream_write
abbrev pub sendable : StreamContext → ℕ → ℕ
sendable x count = min (min count max_payload) x.send_window

-- WINDOW_UPDATE of this stream; the window is a uint32_t
abbrev pub grant : Header → StreamContext → StreamContext
grant h x = record x {
  send_window = (x.send_window + h.length_) % 2 ^ 32;
  syn_ack_received = x.syn_ack_received || has_flag h flag_ack;
}

-- the receive window less a payload, not below 0
abbrev pub spend : ℕ → StreamContext → StreamContext
spend n x = record x { recv_window = if leb n x.recv_window then x.recv_window - n else 0 }

abbrev pub increment : StreamContext → ℕ
increment x = (initial_window + 2 ^ 32 - x.recv_window) % 2 ^ 32

module _ (t : Transport) where
  abbrev pub on_conn : {A : Type 0} → M (Conn t) A → M (Chan t) A
  on_conn m c = ((m c.conn).0, record c { conn = (m c.conn).1 })

  abbrev pub on_ctx : (StreamContext → StreamContext) → M (Chan t) (Unit {0})
  on_ctx f c = (ok tt, record c { ctx = f c.ctx })

  abbrev pub chan : M (Chan t) (Chan t)
  chan c = (ok c, c)

  -- `session->closed || ctx->closed`
  abbrev pub is_closed : Chan t → Bool
  is_closed c = c.conn.session.closed || c.ctx.closed

  -- yamux_stream_write: the number of bytes that it took
  unfoldable pub stream_write : List ℕ → M (Chan t) ℕ
  stream_write buf = do
    c ← chan
    guard (not (is_closed c))
    let count = sendable c.ctx (length buf)
    guard (not (count == 0))
    on_conn (send_header t type_data 0 c.ctx.stream_id count)
    on_conn (on_net t (write_full t (take count buf)))
    on_ctx (λ x. record x { send_window = x.send_window - count })
    pure count

  -- a DATA frame of another stream
  unfoldable pub buffer_pending : Header → M (Chan t) (Unit {0})
  buffer_pending h = do
    c ← chan
    if pending_exists h.stream_id c.conn.session.pending_inbound && ltb 0 h.length_
        then (do
          attempt (on_conn (send_header t type_window_update 0 h.stream_id h.length_))
          got ← recover (on_conn (on_net t (read_full t h.length_)))
          elim got [
            | none ↦ on_conn (discard_payload t h.length_)
            | some bs ↦ on_conn (
                on_session t (λ s. record s {
                  pending_inbound = pending_append h.stream_id bs s.pending_inbound;
                }))
          ])
        else on_conn (discard_payload t h.length_)

  -- "Replenish the receive window so the peer can keep sending."
  unfoldable pub replenish : ℕ → M (Chan t) (Unit {0})
  replenish payload_len = do
    on_ctx (spend payload_len)
    c ← chan
    let inc = increment c.ctx
    if leb window_threshold inc
        then (do
          sent ← recover (on_conn (send_header t type_window_update 0 c.ctx.stream_id inc))
          elim sent [
            | none ↦ pure tt
            | some u ↦ on_ctx (λ x. record x { recv_window = (x.recv_window + inc) % 2 ^ 32 })
          ])
        else pure tt

  -- a DATA frame of this stream, for a read of `count` bytes
  unfoldable pub take_payload : ℕ → Header → M (Chan t) (Option (List ℕ))
  take_payload count h =
      if h.length_ == 0
      then (if has_flag h flag_fin
          then (on_ctx (λ x. record x { closed = true }) >> pure (some []))
          else pure none)
      else do
        bs ← on_conn (on_net t (read_full t h.length_))
        on_ctx (λ x. record x { read_buffer = bs; read_buffer_pos = 0 })
        replenish h.length_
        if has_flag h flag_fin then on_ctx (λ x. record x { closed = true }) else pure tt
        on_ctx (λ x. record x { read_buffer_pos = min count h.length_ })
        pure (some (take (min count h.length_) bs))

  -- the part of a round that a frame decides
  unfoldable pub read_frame : ℕ → Header → M (Chan t) (Option (List ℕ))
  read_frame count h = do
    c ← chan
    guard (h.version == 0)
    if h.type == type_ping || h.type == type_go_away
        then (on_conn (handle_control_frame t h) >> pure none)
        else if h.type == type_window_update
        then (if h.stream_id == c.ctx.stream_id then (on_ctx (grant h) >> pure none) else pure none)
        else if not (h.type == type_data)
        then (on_conn (discard_payload t h.length_) >> pure none)
        else if not (h.stream_id == c.ctx.stream_id)
        then (buffer_pending h >> pure none)
        else take_payload count h

  -- one round of yamux_stream_read: `none` goes round again
  unfoldable pub read_round : ℕ → M (Chan t) (Option (List ℕ))
  read_round count = do
    c ← chan
    guard (not (is_closed c))
    let x = c.ctx
    if ltb x.read_buffer_pos (length x.read_buffer)
        then (do
          let to_copy = min count (length x.read_buffer - x.read_buffer_pos)
          on_ctx (λ x. record x { read_buffer_pos = x.read_buffer_pos + to_copy })
          pure (some (take to_copy (drop x.read_buffer_pos x.read_buffer))))
        else (do h ← on_conn (read_header t); read_frame count h)

  -- yamux_stream_read, with `fuel` frames at most
  unfoldable pub stream_read : ℕ → ℕ → M (Chan t) (List ℕ)
  stream_read fuel count = forever fuel (read_round count)

  -- yamux_stream_close. The stream and its context are freed: what is left is the session.
  unfoldable pub stream_close : Chan t → Conn t
  stream_close c =
      if not c.ctx.closed && not c.conn.session.closed && c.conn.session.attached
      then (send_header t type_data flag_fin c.ctx.stream_id 0 c.conn).1
      else c.conn
