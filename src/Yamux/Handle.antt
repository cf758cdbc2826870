-- ===== src/Yamux/Handle.antt =====
-- A session and the stream below it: as long as the session is not closed, the stream is alive, and
-- once it is closed, the stream is, and not used again.
use c_libp2p.Base.{ℕ, zero, suc, ◌-◌, ◌≡◌, refl, sym, subst, ◌∙◌, inr, min}
use c_libp2p.Base.{Bool, true, false, ◌==◌, if◌then◌else◌}
use c_libp2p.Transport.{Transport, M, ◌>>◌, pure, fail}
use c_libp2p.Transport.Handle.{IsHandle, After, Safe, Quiet, Quiet-Safe, Safe-pure, Safe-if}
use c_libp2p.Transport.Handle.{Quiet-bind, Quiet-pure, Quiet-if}
use c_libp2p.Transport.Handle.{read_full-Quiet, write_full-Quiet}
use c_libp2p.Yamux.{
  Header, Session, Conn, on_net, on_session, session, close_net, header_bytes, header_of,
}
use c_libp2p.Yamux.{
  send_header, read_header, hang_up, handle_control_frame, discard_rounds, discard_payload,
}
use c_libp2p.Yamux.{has_flag, type_ping, type_go_away, flag_ack}

module _ {t : Transport} (Alive Closed : t.State → Type 0) where
  pub record Open (c : Conn t) : Type 0 where
    pub live : Alive c.net
    pub unclosed : c.session.closed ≡ false
    pub held : c.session.attached ≡ true

  pub record Over (c : Conn t) : Type 0 where
    pub gone : Closed c.net
    pub marked : c.session.closed ≡ true

module _ {t : Transport} {Alive Closed : t.State → Type 0} (handle : IsHandle t Alive Closed) where
  pub on_net-Quiet :
      {A : Type 0} {m : M t.State A} → Quiet Alive m → Quiet (Open Alive Closed) (on_net t m)
  on_net-Quiet q = record {
    run = λ c h. record { live = q.run c.net h.live; unclosed = h.unclosed; held = h.held };
  }

  -- an update that leaves the marks of the session
  pub on_session-Quiet :
      (f : Session → Session)
      → ((s : Session) → (f s).closed ≡ s.closed)
      → ((s : Session) → (f s).attached ≡ s.attached)
      → Quiet (Open Alive Closed) (on_session t f)
  on_session-Quiet f same kept = record {
    run = λ c h. record {
      live = h.live;
      unclosed = same c.session ∙ h.unclosed;
      held = kept c.session ∙ h.held;
    };
  }

  pub session-Quiet : Quiet (Open Alive Closed) (session t)
  session-Quiet = record { run = λ c h. h }

  pub send_header-Quiet :
      (type flags id len : ℕ) → Quiet (Open Alive Closed) (send_header t type flags id len)
  unfolding send_header
  send_header-Quiet type flags id len =
      on_net-Quiet (write_full-Quiet handle (header_bytes type flags id len))

  pub read_header-Quiet : Quiet (Open Alive Closed) (read_header t)
  unfolding read_header
  read_header-Quiet =
      Quiet-bind (on_net-Quiet (read_full-Quiet handle 12)) (λ bs. Quiet-pure (header_of bs))

  discard_rounds-Quiet : (fuel n : ℕ) → Quiet (Open Alive Closed) (discard_rounds t fuel n)
  unfolding discard_rounds
  discard_rounds-Quiet fuel zero = Quiet-pure tt
  discard_rounds-Quiet zero (suc n) = record { run = λ c h. h }
  discard_rounds-Quiet (suc fuel) (suc n) =
      let rest = discard_rounds-Quiet fuel (suc n - min 1024 (suc n)) in
      Quiet-bind (on_net-Quiet (read_full-Quiet handle (min 1024 (suc n)))) (λ bs. rest)

  pub discard_payload-Quiet : (n : ℕ) → Quiet (Open Alive Closed) (discard_payload t n)
  unfolding discard_payload
  discard_payload-Quiet n = discard_rounds-Quiet n n

  hang_up-Safe : Safe (Open Alive Closed) (Over Alive Closed) (hang_up t)
  hang_up-Safe = record { run = ended }
    where
      ended :
          (c : Conn t)
          → Open Alive Closed c
          → After (Open Alive Closed) (Over Alive Closed) (hang_up t c).0 (hang_up t c).1
      ended c h =
          let c' : Conn t = (on_session t (λ s. record s { closed = true }) c).1 in
          let stop : Bool → M (Conn t) (Unit {0}) =
            λ b. (if b then close_net t else pure tt) >> fail in
          subst (λ b. After (Open Alive Closed) (Over Alive Closed) (stop b c').0 (stop b c').1)
            (sym h.held) (inr (record { gone = handle.close-Closed c.net h.live; marked = refl }))

  pub handle_control_frame-Safe :
      (h : Header) → Safe (Open Alive Closed) (Over Alive Closed) (handle_control_frame t h)
  unfolding handle_control_frame
  handle_control_frame-Safe h =
      Safe-if (h.type == type_ping)
        (Quiet-Safe (
          Quiet-if (has_flag h flag_ack) (Quiet-pure tt)
            (send_header-Quiet type_ping flag_ack 0 h.length_)))
        (Safe-if (h.type == type_go_away) hang_up-Safe (Safe-pure tt))
