-- ===== src/Yamux/Serving.antt =====
-- What libp2p_yamux_stream_accept, libp2p_yamux_session_ping and yamux_stream_close do with the
-- stream below the session, be it closed or not.
use c_libp2p.Base.{
  ap, ◌≡◌, ℕ, ◌+◌, ◌%◌, ◌^◌, ◌≡◌, refl, sym, subst, inl, inr, List, [], ◌∷◌, Option, none, some,
}
use c_libp2p.Base.{Bool, true, false, not, ◌&&◌, ◌||◌, ◌==◌, ltb, if◌then◌else◌}
use c_libp2p.Transport.{Transport, failed, M, ◌>>=◌, ◌>>◌, pure, guard, forever, read_full}
use c_libp2p.Transport.Handle.{
  IsHandle, Safe, Quiet-Safe, Safe-pure, Safe-then, Safe-bind, Safe-if, Safe-forever,
}
use c_libp2p.Transport.Handle.{Quiet-guard, Quiet-recover, read_full-Quiet}
use c_libp2p.Yamux.{Pending, Conn, on_net, on_session, send_header, has_flag}
use c_libp2p.Yamux.{type_data, type_ping, type_window_update, flag_ack, flag_fin}
use c_libp2p.Yamux.Stream.{StreamContext, Chan, new_context, stream_close}
use c_libp2p.Yamux.Open.{
  is_control, is_syn, wait_round, next_inbound, stream_open, stream_accept, ping_round,
  session_ping,
}
use c_libp2p.Yamux.Handle.{
  Open, Over, on_net-Quiet, on_session-Quiet, session-Quiet, send_header-Quiet, read_header-Quiet,
  discard_payload-Quiet, handle_control_frame-Safe,
}
use c_libp2p.Yamux.Released.{Sane, Safe-Sane, stream_open-Safe}

module _ (t : Transport) where
  abbrev pub at_stream : Conn t → StreamContext → Chan t
  at_stream c x = record { conn = c; ctx = x }

module _ {t : Transport} {Alive Closed : t.State → Type 0} (handle : IsHandle t Alive Closed) where
  wait_round-Safe : Safe (Open Alive Closed) (Over Alive Closed) (wait_round t)
  unfolding wait_round
  wait_round-Safe = Safe-bind (Quiet-Safe (read_header-Quiet handle)) (λ h.
      Safe-if (is_control h) (Safe-then none (handle_control_frame-Safe handle h)) (
        Safe-if (is_syn h) (Safe-pure (some h))
          (Safe-then none (Quiet-Safe (discard_payload-Quiet handle h.length_)))))

  next_inbound-Safe :
      (fuel : ℕ) → Safe (Open Alive Closed) (Over Alive Closed) (next_inbound t fuel)
  unfolding next_inbound
  next_inbound-Safe fuel =
      Safe-bind (Quiet-Safe (session-Quiet handle)) (λ s. from s.pending_inbound)
    where
      from :
          (queued : List Pending)
          → Safe (Open Alive Closed) (Over Alive Closed) {A = Pending} (elim queued [
            | p ∷ ps ↦ (on_session t (λ s. record s { pending_inbound = ps }) >> pure p)
            | [] ↦ (do
              h ← forever fuel (wait_round t)
              bs ←
                  (if h.type == type_data && ltb 0 h.length_
                    then on_net t (read_full t h.length_)
                    else pure [])
              pure (record { stream_id = h.stream_id; payload = bs }))
          ])
      from (p ∷ ps) = Safe-then p (
          Quiet-Safe (
            on_session-Quiet handle (λ s. record s { pending_inbound = ps }) (λ s. refl)
              (λ s. refl)))
      from [] = Safe-bind (Safe-forever (wait_round-Safe) fuel) (λ h.
          Safe-bind
            (Safe-if (h.type == type_data && ltb 0 h.length_)
              (Quiet-Safe (on_net-Quiet handle (read_full-Quiet handle h.length_))) (Safe-pure []))
            (λ bs. Safe-pure (record { stream_id = h.stream_id; payload = bs })))

  pub stream_close-Sane :
      (c : Conn t) (x : StreamContext)
      → Sane handle c
      → Sane handle (stream_close t (at_stream t c x))
  unfolding stream_close
  stream_close-Sane c x (inl h) = go (not x.closed && not c.session.closed && c.session.attached)
    where
      go :
          (b : Bool)
          → Sane handle (if b then (send_header t type_data flag_fin x.stream_id 0 c).1 else c)
      go true = inl ((send_header-Quiet handle type_data flag_fin x.stream_id 0).run c h)
      go false = inl h
  stream_close-Sane c x (inr h) = go x.closed c.session.closed c.session.attached h.marked
    where
      go :
          (a b d : Bool)
          → b ≡ true
          → Sane handle (
              if not a && not b && d
              then (send_header t type_data flag_fin x.stream_id 0 c).1
              else c)
      go true b d e = inr h
      go false true d e = inr h
      go false false d e = absurd (cc)

  accepted-Safe :
      (x : StreamContext) (sent : Option (Unit {0}))
      → Safe
          (Open Alive Closed)
          (Over Alive Closed)
          {A = StreamContext}
          (elim sent [ some u ↦ pure x | none ↦ (λ c. (failed, stream_close t (at_stream t c x))) ])
  accepted-Safe x (some u) = Safe-pure x
  accepted-Safe x none = record { run = λ c h. stream_close-Sane c x (inl h) }

  stream_accept-Safe :
      (fuel : ℕ) → Safe (Open Alive Closed) (Over Alive Closed) (stream_accept t fuel)
  unfolding stream_accept
  stream_accept-Safe fuel = Safe-bind (Quiet-Safe (session-Quiet handle)) (λ s.
      Safe-bind (Quiet-Safe (Quiet-guard (not s.closed))) (λ u.
        Safe-bind (next_inbound-Safe fuel) (λ p.
          Safe-bind
            (Quiet-Safe
              (Quiet-recover (send_header-Quiet handle type_window_update flag_ack p.stream_id 0)))
            (accepted-Safe (record (new_context p.stream_id true) { read_buffer = p.payload })))))

  ping_round-Safe : (value : ℕ) → Safe (Open Alive Closed) (Over Alive Closed) (ping_round t value)
  unfolding ping_round
  ping_round-Safe value = Safe-bind (Quiet-Safe (read_header-Quiet handle)) (λ h.
      Safe-if (h.type == type_ping && has_flag h flag_ack && h.length_ == value)
        (Safe-pure (some tt))
        (Safe-then none (
          Safe-bind (handle_control_frame-Safe handle h)
            (λ u. Quiet-Safe (discard_payload-Quiet handle h.length_)))))

  session_ping-Safe :
      (fuel : ℕ) → Safe (Open Alive Closed) (Over Alive Closed) (session_ping t fuel)
  unfolding session_ping
  session_ping-Safe fuel = Safe-bind (Quiet-Safe (session-Quiet handle)) (λ s.
      Safe-bind (Quiet-Safe (Quiet-guard (not s.closed))) (λ u.
        Safe-bind
          (Quiet-Safe (
            on_session-Quiet handle (λ s. record s { ping_seq = (s.ping_seq + 1) % 2 ^ 32 })
              (λ s. refl) (λ s. refl)))
          (λ u.
            Safe-bind (Quiet-Safe (send_header-Quiet handle type_ping 0 0 s.ping_seq))
              (λ u. Safe-forever (ping_round-Safe s.ping_seq) fuel))))

  -- a session that is closed turns a call down
  pub refused :
      {A : Type 0} (k : M (Conn t) A) (c : Conn t)
      → Over Alive Closed c
      → Sane handle ((guard (not c.session.closed) >> k) c).1
  refused k c h = subst (λ b. Sane handle ((guard (not b) >> k) c).1) (sym h.marked) (inr h)

  pub refused_stream :
      {A : Type 0} (k : M (Chan t) A) (c : Chan t)
      → Over Alive Closed c.conn
      → (guard (not (c.conn.session.closed || c.ctx.closed)) >> k) c ≡ (failed, c)
  refused_stream k c h = ap (λ b. (guard (not (b || c.ctx.closed)) >> k) c) h.marked

  pub stream_open-Sane :
      (fuel : ℕ) (c : Conn t) → Sane handle c → Sane handle (stream_open t fuel c).1
  unfolding stream_open
  stream_open-Sane fuel c (inl h) = Safe-Sane handle (stream_open-Safe handle fuel) c h
  stream_open-Sane fuel c (inr h) = refused _ c h

  pub stream_accept-Sane :
      (fuel : ℕ) (c : Conn t) → Sane handle c → Sane handle (stream_accept t fuel c).1
  unfolding stream_accept
  stream_accept-Sane fuel c (inl h) = Safe-Sane handle (stream_accept-Safe fuel) c h
  stream_accept-Sane fuel c (inr h) = refused _ c h

  pub session_ping-Sane :
      (fuel : ℕ) (c : Conn t) → Sane handle c → Sane handle (session_ping t fuel c).1
  unfolding session_ping
  session_ping-Sane fuel c (inl h) = Safe-Sane handle (session_ping-Safe fuel) c h
  session_ping-Sane fuel c (inr h) = refused _ c h
