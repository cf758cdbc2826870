-- ===== src/Yamux/Reading.antt =====
-- What yamux_stream_read and yamux_stream_write do with the stream below the session.
use c_libp2p.Base.{
  ℕ, refl, ◌+◌, ◌-◌, ◌%◌, ◌^◌, List, [], Option, none, some, min, length, take, drop,
}
use c_libp2p.Base.{true, not, ◌&&◌, ◌||◌, ◌==◌, ltb, leb}
use c_libp2p.Transport.{Transport, pure, read_full}
use c_libp2p.Transport.Handle.{
  IsHandle, Safe, Quiet, Quiet-Safe, Safe-pure, Safe-then, Safe-bind, Safe-if, Safe-forever,
}
use c_libp2p.Transport.Handle.{
  Quiet-bind, Quiet-pure, Quiet-guard, Quiet-recover, Quiet-attempt, Quiet-if,
}
use c_libp2p.Transport.Handle.{read_full-Quiet, write_full-Quiet}
use c_libp2p.Yamux.{
  Header, on_net, on_session, send_header, discard_payload, has_flag, pending_exists,
  pending_append,
}
use c_libp2p.Yamux.{
  type_ping, type_go_away, type_data, type_window_update, flag_fin, window_threshold,
}
use c_libp2p.Yamux.Stream.{on_ctx, on_conn, is_closed, sendable, grant, spend, increment}
use c_libp2p.Yamux.Stream.{
  buffer_pending, replenish, take_payload, read_frame, read_round, stream_read, stream_write,
}
use c_libp2p.Yamux.Handle.{on_net-Quiet, on_session-Quiet, send_header-Quiet, read_header-Quiet}
use c_libp2p.Yamux.Handle.{discard_payload-Quiet, handle_control_frame-Safe}
use c_libp2p.Yamux.Released.{
  ChanOpen, ChanOver, on_conn-Quiet, on_conn-Safe, on_ctx-Quiet, chan-Quiet,
}

module _ {t : Transport} {Alive Closed : t.State → Type 0} (handle : IsHandle t Alive Closed) where
  header_sent-Quiet :
      (type flags id len : ℕ)
      → Quiet (ChanOpen Alive Closed) (on_conn t (send_header t type flags id len))
  header_sent-Quiet type flags id len =
      on_conn-Quiet handle (send_header-Quiet handle type flags id len)

  net_read-Quiet : (n : ℕ) → Quiet (ChanOpen Alive Closed) (on_conn t (on_net t (read_full t n)))
  net_read-Quiet n = on_conn-Quiet handle (on_net-Quiet handle (read_full-Quiet handle n))

  discarded-Quiet : (n : ℕ) → Quiet (ChanOpen Alive Closed) (on_conn t (discard_payload t n))
  discarded-Quiet n = on_conn-Quiet handle (discard_payload-Quiet handle n)

  -- yamux_stream_write
  pub stream_write-Quiet : (buf : List ℕ) → Quiet (ChanOpen Alive Closed) (stream_write t buf)
  unfolding stream_write
  stream_write-Quiet buf = Quiet-bind (chan-Quiet handle) (λ c.
      Quiet-bind (Quiet-guard (not (is_closed t c))) (λ u.
        Quiet-bind (Quiet-guard (not (sendable c.ctx (length buf) == 0))) (λ u.
          Quiet-bind (header_sent-Quiet type_data 0 c.ctx.stream_id (sendable c.ctx (length buf)))
            (λ u.
              Quiet-bind
                (on_conn-Quiet handle (
                  on_net-Quiet handle
                    (write_full-Quiet handle (take (sendable c.ctx (length buf)) buf))))
                (λ u.
                  Quiet-bind
                    (on_ctx-Quiet handle
                      (λ x. record x { send_window = x.send_window - sendable c.ctx (length buf) }))
                    (λ u. Quiet-pure (sendable c.ctx (length buf))))))))

  buffer_pending-Quiet : (h : Header) → Quiet (ChanOpen Alive Closed) (buffer_pending t h)
  unfolding buffer_pending
  buffer_pending-Quiet h = Quiet-bind (chan-Quiet handle) (λ c.
      Quiet-if (pending_exists h.stream_id c.conn.session.pending_inbound && ltb 0 h.length_)
        (Quiet-bind (Quiet-attempt (header_sent-Quiet type_window_update 0 h.stream_id h.length_))
          (λ u. Quiet-bind (Quiet-recover (net_read-Quiet h.length_)) kept))
        (discarded-Quiet h.length_))
    where
      kept :
          (got : Option (List ℕ))
          → Quiet (ChanOpen Alive Closed) (elim got [
            | none ↦ on_conn t (discard_payload t h.length_)
            | some bs ↦ on_conn t (
                on_session t (λ s. record s {
                  pending_inbound = pending_append h.stream_id bs s.pending_inbound;
                }))
          ])
      kept none = discarded-Quiet h.length_
      kept (some bs) = on_conn-Quiet handle (
          on_session-Quiet handle
            (λ s. record s { pending_inbound = pending_append h.stream_id bs s.pending_inbound })
            (λ s. refl) (λ s. refl))

  replenish-Quiet : (n : ℕ) → Quiet (ChanOpen Alive Closed) (replenish t n)
  unfolding replenish
  replenish-Quiet n = Quiet-bind (on_ctx-Quiet handle (spend n)) (λ u.
      Quiet-bind (chan-Quiet handle) (λ c.
        Quiet-if (leb window_threshold (increment c.ctx))
          (Quiet-bind
            (Quiet-recover
              (header_sent-Quiet type_window_update 0 c.ctx.stream_id (increment c.ctx)))
            (credited (increment c.ctx)))
          (Quiet-pure tt)))
    where
      credited :
          (inc : ℕ) (sent : Option (Unit {0}))
          → Quiet (ChanOpen {t = t} Alive Closed) (elim sent [
            | none ↦ pure tt
            | some u ↦ on_ctx t (λ x. record x { recv_window = (x.recv_window + inc) % 2 ^ 32 })
          ])
      credited inc none = Quiet-pure tt
      credited inc (some u) =
          on_ctx-Quiet handle (λ x. record x { recv_window = (x.recv_window + inc) % 2 ^ 32 })

  take_payload-Quiet :
      (count : ℕ) (h : Header) → Quiet (ChanOpen Alive Closed) (take_payload t count h)
  unfolding take_payload
  take_payload-Quiet count h =
      Quiet-if (h.length_ == 0)
        (Quiet-if (has_flag h flag_fin) (Quiet-bind ended (λ u. Quiet-pure (some [])))
          (Quiet-pure none))
        (Quiet-bind (net_read-Quiet h.length_) (λ bs.
          Quiet-bind (on_ctx-Quiet handle (λ x. record x { read_buffer = bs; read_buffer_pos = 0 }))
            (λ u. Quiet-bind (replenish-Quiet h.length_) (λ u.
              Quiet-bind (Quiet-if (has_flag h flag_fin) ended (Quiet-pure tt)) (λ u.
                Quiet-bind
                  (on_ctx-Quiet handle (λ x. record x { read_buffer_pos = min count h.length_ }))
                  (λ u. Quiet-pure (some (take (min count h.length_) bs))))))))
    where
      ended : Quiet (ChanOpen Alive Closed) (on_ctx t (λ x. record x { closed = true }))
      ended = on_ctx-Quiet handle (λ x. record x { closed = true })

  read_frame-Safe :
      (count : ℕ) (h : Header)
      → Safe (ChanOpen Alive Closed) (ChanOver Alive Closed) (read_frame t count h)
  unfolding read_frame
  read_frame-Safe count h = Safe-bind (Quiet-Safe (chan-Quiet handle)) (λ c.
      Safe-bind (Quiet-Safe (Quiet-guard (h.version == 0))) (λ u.
        Safe-if (h.type == type_ping || h.type == type_go_away)
          (Safe-then none (on_conn-Safe handle (handle_control_frame-Safe handle h)))
          (Safe-if (h.type == type_window_update)
            (Safe-if (h.stream_id == c.ctx.stream_id)
              (Safe-then none (Quiet-Safe (on_ctx-Quiet handle (grant h)))) (Safe-pure none))
            (Safe-if (not (h.type == type_data))
              (Safe-then none (Quiet-Safe (discarded-Quiet h.length_)))
              (Safe-if (not (h.stream_id == c.ctx.stream_id))
                (Safe-then none (Quiet-Safe (buffer_pending-Quiet h)))
                (Quiet-Safe (take_payload-Quiet count h)))))))

  read_round-Safe :
      (count : ℕ) → Safe (ChanOpen Alive Closed) (ChanOver Alive Closed) (read_round t count)
  unfolding read_round
  read_round-Safe count = Safe-bind (Quiet-Safe (chan-Quiet handle)) (λ c.
      Safe-bind (Quiet-Safe (Quiet-guard (not (is_closed t c)))) (λ u.
        Safe-if (ltb c.ctx.read_buffer_pos (length c.ctx.read_buffer))
          (Safe-bind
            (Quiet-Safe (
              on_ctx-Quiet handle (λ x. record x {
                read_buffer_pos =
                    x.read_buffer_pos
                    + min count (length c.ctx.read_buffer - c.ctx.read_buffer_pos);
              })))
            (λ u. Safe-pure (
              some (
                take (min count (length c.ctx.read_buffer - c.ctx.read_buffer_pos))
                  (drop c.ctx.read_buffer_pos c.ctx.read_buffer)))))
          (Safe-bind (Quiet-Safe (on_conn-Quiet handle (read_header-Quiet handle)))
            (read_frame-Safe count))))

  -- yamux_stream_read
  pub stream_read-Safe :
      (fuel count : ℕ)
      → Safe (ChanOpen Alive Closed) (ChanOver Alive Closed) (stream_read t fuel count)
  unfolding stream_read
  stream_read-Safe fuel count = Safe-forever (read_round-Safe count) fuel
