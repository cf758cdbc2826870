-- ===== src/Yamux/Lifetime.antt =====
-- Any sequence of calls on a session and its streams, and the stream below it.
use c_libp2p.Base.{zero, suc, ℕ, ◌≡◌, refl, sym, subst, inl, inr, List, [], ◌∷◌}
use c_libp2p.Base.{Bool, true, false, not, ◌&&◌, if◌then◌else◌}
use c_libp2p.Transport.{Transport, failed, M, go_on, ◌>>=◌, ◌>>◌, pure, attempt, forever}
use c_libp2p.Transport.Handle.{IsHandle, After-Sane}
use c_libp2p.Yamux.{Conn, session_new, on_session, close_net, send_header}
use c_libp2p.Yamux.{type_go_away}
use c_libp2p.Yamux.Stream.{read_round, StreamContext, Chan, stream_read, stream_write, stream_close}
use c_libp2p.Yamux.Open.{stream_open, stream_accept, session_ping, session_goaway, session_free}
use c_libp2p.Yamux.Handle.{Open, Over, send_header-Quiet}
use c_libp2p.Yamux.Released.{ChanOpen, ChanOver, Sane}
use c_libp2p.Yamux.Reading.{stream_read-Safe, stream_write-Quiet}
use c_libp2p.Yamux.Serving.{
  at_stream, stream_close-Sane, refused_stream, stream_open-Sane, stream_accept-Sane,
  session_ping-Sane,
}

-- A call on a session, or on a stream of it with any context.
pub data Call : Type 0 where
  open_call accept_call ping_call : ℕ → Call
  goaway_call : ℕ → Call
  read_call : StreamContext → ℕ → ℕ → Call
  write_call : StreamContext → List ℕ → Call
  close_call : StreamContext → Call

module _ (t : Transport) where
  abbrev pub call : Call → Conn t → Conn t
  call (open_call fuel) c = (stream_open t fuel c).1
  call (accept_call fuel) c = (stream_accept t fuel c).1
  call (ping_call fuel) c = (session_ping t fuel c).1
  call (goaway_call code) c = (session_goaway t code c).1
  call (read_call x fuel count) c = (stream_read t fuel count (at_stream t c x)).1.conn
  call (write_call x buf) c = (stream_write t buf (at_stream t c x)).1.conn
  call (close_call x) c = stream_close t (at_stream t c x)

  abbrev pub calls : List Call → Conn t → Conn t
  calls [] c = c
  calls (k ∷ ks) c = calls ks (call k c)

module _ {t : Transport} {Alive Closed : t.State → Type 0} (handle : IsHandle t Alive Closed) where
  session_goaway-Sane :
      (code : ℕ) (c : Conn t) → Sane handle c → Sane handle (session_goaway t code c).1
  unfolding session_goaway
  session_goaway-Sane code c (inl h) =
      let sent : Conn t = (send_header t type_go_away 0 0 code c).1 in
      let kept : Open Alive Closed sent =
        (send_header-Quiet handle type_go_away 0 0 code).run c h in
      let shut : Bool → M (Conn t) (Unit {0}) = λ a.
        if a then (close_net t >> on_session t (λ s. record s { attached = false })) else pure tt in
      let leave : Bool → M (Conn t) (Unit {0}) = λ b. if b then pure tt else (do
        attempt (send_header t type_go_away 0 0 code)
        on_session t (λ s. record s { closed = true })
        shut c.session.attached) in
      let marked : Conn t = (on_session t (λ s. record s { closed = true }) sent).1 in
      subst (λ b. Sane handle (leave b c).1) (sym h.unclosed)
        (subst (λ a. Sane handle (shut a marked).1) (sym h.held)
          (inr (record { gone = handle.close-Closed sent.net kept.live; marked = refl })))
  session_goaway-Sane code c (inr h) =
      let leave : Bool → M (Conn t) (Unit {0}) = λ b. if b then pure tt else (do
        attempt (send_header t type_go_away 0 0 code)
        on_session t (λ s. record s { closed = true })
        if c.session.attached
            then (close_net t >> on_session t (λ s. record s { attached = false }))
            else pure tt) in
      subst (λ b. Sane handle (leave b c).1) (sym h.marked) (inr h)

  stopped :
      {A B : Type 0} (m : M (Chan t) A) (f : A → M (Chan t) B) (c : Chan t)
      → m c ≡ (failed, c)
      → Over Alive Closed c.conn
      → Sane handle ((m >>= f) c).1.conn
  stopped m f c e h = subst (λ r. Sane handle (go_on r.0 f r.1).1.conn) (sym e) (inr h)

  pub stream_read-Sane :
      (fuel count : ℕ) (c : Chan t)
      → Sane handle c.conn
      → Sane handle (stream_read t fuel count c).1.conn
  unfolding stream_read forever read_round
  stream_read-Sane fuel count c (inl h) =
      After-Sane (ChanOpen Alive Closed) (ChanOver Alive Closed) (stream_read t fuel count c).0
        ((stream_read-Safe handle fuel count).run c h)
  stream_read-Sane zero count c (inr h) = inr h
  stream_read-Sane (suc fuel) count c (inr h) =
      stopped (read_round t count) _ c (refused_stream handle _ c h) h

  pub stream_write-Sane :
      (buf : List ℕ) (c : Chan t) → Sane handle c.conn → Sane handle (stream_write t buf c).1.conn
  unfolding stream_write
  stream_write-Sane buf c (inl h) = inl ((stream_write-Quiet handle buf).run c h)
  stream_write-Sane buf c (inr h) =
      subst (λ r. Sane handle r.1.conn) (sym (refused_stream handle _ c h)) (inr h)

  call-Sane : (k : Call) (c : Conn t) → Sane handle c → Sane handle (call t k c)
  call-Sane (open_call fuel) c h = stream_open-Sane handle fuel c h
  call-Sane (accept_call fuel) c h = stream_accept-Sane handle fuel c h
  call-Sane (ping_call fuel) c h = session_ping-Sane handle fuel c h
  call-Sane (goaway_call code) c h = session_goaway-Sane code c h
  call-Sane (read_call x fuel count) c h = stream_read-Sane fuel count (at_stream t c x) h
  call-Sane (write_call x buf) c h = stream_write-Sane buf (at_stream t c x) h
  call-Sane (close_call x) c h = stream_close-Sane handle c x h

  calls-Sane : (ks : List Call) (c : Conn t) → Sane handle c → Sane handle (calls t ks c)
  calls-Sane [] c h = h
  calls-Sane (k ∷ ks) c h = calls-Sane ks (call t k c) (call-Sane k c h)

  free_lem : (c : Conn t) → Sane handle c → Closed (session_free t c).1.net
  unfolding session_free
  free_lem c (inl h) = go c.session.attached c.session.closed h.held h.unclosed
    where
      go :
          (a b : Bool)
          → a ≡ true
          → b ≡ false
          → Closed ((if a && not b then close_net t else pure tt) c).1.net
      go true false e f = handle.close-Closed c.net h.live
      go true true e f = absurd (cc)
      go false b e f = absurd (cc)
  free_lem c (inr h) = go c.session.attached c.session.closed h.marked
    where
      go : (a b : Bool) → b ≡ true → Closed ((if a && not b then close_net t else pure tt) c).1.net
      go true true e = h.gone
      go false b e = h.gone
      go true false e = absurd (cc)

  -- Whatever is called on a new session and on streams of it, and whatever the peer sends, the
  -- stream below is read, written and closed only while it is not closed, and it is closed once the
  -- session is freed.
  pub session_free-calls :
      (is_server : Bool) (s : t.State) (ks : List Call)
      → Alive s
      → Closed
          (session_free t (calls t ks (record { net = s; session = session_new is_server }))).1.net
  session_free-calls is_server s ks h = free_lem _ (
      calls-Sane ks (record { net = s; session = session_new is_server })
        (inl (record { live = h; unclosed = refl; held = refl })))
