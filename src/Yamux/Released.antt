-- ===== src/Yamux/Released.antt =====
-- What the operations of a session and of its streams do with the stream below them.
use c_libp2p.Base.{ℕ, ◌+◌, ◌%◌, ◌^◌, refl, ◌⊎◌, [], none, some}
use c_libp2p.Base.{true, false, not, ◌&&◌, ◌==◌, ltb, if◌then◌else◌}
use c_libp2p.Transport.{Transport, Res, ok, failed, undefined, stuck, M}
use c_libp2p.Transport.Handle.{
  IsHandle, After, After-Sane, Safe, Quiet, Quiet-Safe, Safe-then, Safe-bind, Safe-if, Safe-forever,
}
use c_libp2p.Transport.Handle.{
  Quiet-bind, Quiet-pure, Quiet-guard, Quiet-recover, Quiet-attempt, Quiet-if,
}
use c_libp2p.Transport.Handle.{read_full-Quiet}
use c_libp2p.Yamux.{Header, Conn}
use c_libp2p.Yamux.{has_flag, pending_exists, pending_append}
use c_libp2p.Yamux.{type_data, type_window_update, flag_ack, flag_syn}
use c_libp2p.Yamux.Stream.{StreamContext, Chan, new_context, chan, on_ctx, on_conn}
use c_libp2p.Yamux.Open.{
  is_control, is_syn, pending_add, with_context, payload_or_nothing, map_res, queue_syn, queue_data,
  open_round, stream_open,
}
use c_libp2p.Yamux.Handle.{
  Open, Over, on_net-Quiet, on_session-Quiet, session-Quiet, send_header-Quiet, read_header-Quiet,
}
use c_libp2p.Yamux.Handle.{discard_payload-Quiet, handle_control_frame-Safe}

module _ {t : Transport} (Alive Closed : t.State → Type 0) where
  abbrev pub ChanOpen : Chan t → Type 0
  ChanOpen c = Open Alive Closed c.conn

  abbrev pub ChanOver : Chan t → Type 0
  ChanOver c = Over Alive Closed c.conn

module _ {t : Transport} {Alive Closed : t.State → Type 0} (handle : IsHandle t Alive Closed) where
  pub on_conn-Quiet :
      {A : Type 0} {m : M (Conn t) A}
      → Quiet (Open Alive Closed) m
      → Quiet (ChanOpen Alive Closed) (on_conn t m)
  on_conn-Quiet q = record { run = λ c h. q.run c.conn h }

  pub on_conn-Safe :
      {A : Type 0} {m : M (Conn t) A}
      → Safe (Open Alive Closed) (Over Alive Closed) m
      → Safe (ChanOpen Alive Closed) (ChanOver Alive Closed) (on_conn t m)
  on_conn-Safe {A} {m} q = record {
    run = λ c h. go (m c.conn).0 (on_conn t m c).1 (q.run c.conn h);
  }
    where
      go :
          (r : Res A) (c : Chan t)
          → After (Open Alive Closed) (Over Alive Closed) r c.conn
          → After (ChanOpen Alive Closed) (ChanOver Alive Closed) r c
      go (ok a) c h = h
      go failed c h = h
      go undefined c h = h
      go stuck c h = h

  pub on_ctx-Quiet :
      (f : StreamContext → StreamContext) → Quiet (ChanOpen Alive Closed) (on_ctx t f)
  on_ctx-Quiet f = record { run = λ c h. h }

  pub chan-Quiet : Quiet (ChanOpen Alive Closed) (chan t)
  chan-Quiet = record { run = λ c h. h }

  payload_or_nothing-Quiet : (n : ℕ) → Quiet (Open Alive Closed) (payload_or_nothing t n)
  payload_or_nothing-Quiet n =
      Quiet-bind (Quiet-recover (on_net-Quiet handle (read_full-Quiet handle n)))
        (λ o. Quiet-pure (elim o [ none ↦ [] | some bs ↦ bs ]))

  queue_syn-Quiet : (h : Header) → Quiet (Open Alive Closed) (queue_syn t h)
  unfolding queue_syn
  queue_syn-Quiet h = Quiet-bind (session-Quiet handle) (λ s.
      Quiet-if (pending_exists h.stream_id s.pending_inbound) (Quiet-pure tt) (
        Quiet-bind
          (Quiet-attempt (send_header-Quiet handle type_window_update flag_ack h.stream_id 0))
          (λ u.
            Quiet-bind
              (Quiet-if (h.type == type_data && ltb 0 h.length_)
                (payload_or_nothing-Quiet h.length_) (Quiet-pure []))
              (λ bs.
                on_session-Quiet handle (pending_add h.stream_id bs) (λ s. refl) (λ s. refl)))))

  queue_data-Quiet : (h : Header) → Quiet (Open Alive Closed) (queue_data t h)
  unfolding queue_data
  queue_data-Quiet h =
      Quiet-if (ltb 0 h.length_)
        (Quiet-bind (payload_or_nothing-Quiet h.length_) (λ bs.
          on_session-Quiet handle
            (λ s. record s { pending_inbound = pending_append h.stream_id bs s.pending_inbound })
            (λ s. refl) (λ s. refl)))
        (Quiet-pure tt)

  open_round-Safe : Safe (ChanOpen Alive Closed) (ChanOver Alive Closed) (open_round t)
  unfolding open_round
  open_round-Safe = Safe-bind (Quiet-Safe (on_conn-Quiet (read_header-Quiet handle))) (λ h.
      Safe-bind (Quiet-Safe chan-Quiet) (λ c.
        Safe-if (is_control h) (Safe-then none (on_conn-Safe (handle_control_frame-Safe handle h)))
          (Safe-if (h.type == type_window_update && h.stream_id == c.ctx.stream_id)
            (Safe-then (if has_flag h flag_ack then some tt else none) (
              Quiet-Safe (
                on_ctx-Quiet
                  (λ x. record x { send_window = (x.send_window + h.length_) % 2 ^ 32 }))))
            (Safe-if (is_syn h) (Safe-then none (Quiet-Safe (on_conn-Quiet (queue_syn-Quiet h)))) (
              Safe-if
                (h.type == type_data && pending_exists h.stream_id c.conn.session.pending_inbound)
                (Safe-then none (Quiet-Safe (on_conn-Quiet (queue_data-Quiet h))))
                (Safe-then none
                  (Quiet-Safe (on_conn-Quiet (discard_payload-Quiet handle h.length_)))))))))

  abbrev pub Sane : Conn t → Type 0
  Sane c = Open Alive Closed c ⊎ Over Alive Closed c

  pub Safe-Sane :
      {A : Type 0} {m : M (Conn t) A}
      → Safe (Open Alive Closed) (Over Alive Closed) m
      → (c : Conn t) → Open Alive Closed c
      → Sane (m c).1
  Safe-Sane {A} {m} q c h = After-Sane (Open Alive Closed) (Over Alive Closed) (m c).0 (q.run c h)

  pub with_context-Safe :
      {A : Type 0} (x : StreamContext) {m : M (Chan t) A}
      → Safe (ChanOpen Alive Closed) (ChanOver Alive Closed) m
      → Safe (Open Alive Closed) (Over Alive Closed) (with_context t x m)
  with_context-Safe {A} x {m} q = record {
    run = λ c h.
        go (m (record { conn = c; ctx = x })).0 (m (record { conn = c; ctx = x })).1
          (q.run (record { conn = c; ctx = x }) h);
  }
    where
      go :
          (r : Res A) (c : Chan t)
          → After (ChanOpen Alive Closed) (ChanOver Alive Closed) r c
          → After (Open Alive Closed) (Over Alive Closed) (map_res (λ a. c.ctx) r) c.conn
      go (ok a) c h = h
      go failed c h = h
      go undefined c h = h
      go stuck c h = h

  pub stream_open-Safe :
      (fuel : ℕ) → Safe (Open Alive Closed) (Over Alive Closed) (stream_open t fuel)
  unfolding stream_open
  stream_open-Safe fuel = Safe-bind (Quiet-Safe (session-Quiet handle)) (λ s.
      Safe-bind (Quiet-Safe (Quiet-guard (not s.closed))) (λ u.
        Safe-bind
          (Quiet-Safe (
            on_session-Quiet handle
              (λ s. record s { next_stream_id = (s.next_stream_id + 2) % 2 ^ 32 }) (λ s. refl)
              (λ s. refl)))
          (λ u.
            Safe-bind
              (Quiet-Safe (send_header-Quiet handle type_window_update flag_syn s.next_stream_id 0))
              (λ u. with_context-Safe (new_context s.next_stream_id false) (
                Safe-bind (Safe-forever open_round-Safe fuel)
                  (λ u. Quiet-Safe (on_ctx-Quiet (λ x. record x { syn_ack_received = true }))))))))
