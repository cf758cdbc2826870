-- ===== src/Swarm/Tidy.antt =====
-- What libp2p_v2_swarm_connect leaves of the stream that it dials.
use c_libp2p.Base.{ℕ, ◌≡◌, ◌≢◌, inl, refl, List, Option, none, some, codes, c_string, Bool, false}
use c_libp2p.Transport.{Transport, Res, ok, failed, undefined, stuck, M}
use c_libp2p.Transport.Handle.{IsHandle}
use c_libp2p.Multistream.{connect}
use c_libp2p.Multiaddr.{MultiAddress, new_from_string}
use c_libp2p.Protobuf.{Protobuf}
use c_libp2p.Identify.{Identity, RemotePeer, send_response, receive}
use c_libp2p.Yamux.{Conn, session_new}
use c_libp2p.Yamux.Stream.{StreamContext, Chan}
use c_libp2p.Yamux.Open.{stream_open}
use c_libp2p.Yamux.Released.{Sane}
use c_libp2p.Yamux.Serving.{stream_close-Sane, stream_open-Sane}
use c_libp2p.Yamux.Lifetime.{stream_read-Sane, stream_write-Sane}
use c_libp2p.Swarm.{
  stream_over, nobody, Link, no_link, raw, secured, settled, introduced, hung_up, exchange,
  identify, or_close, with_session, with_noise, with_stream, with_address, swarm_connect, contains,
}
use c_libp2p.Swarm.Calls.{connect-Quiet, send_response-Quiet, receive-Quiet}

-- a stream of a session is a stream, on which calls keep the session and the stream below in step
stream_over-IsHandle :
    {t : Transport} {Alive Closed : t.State → Type 0} (handle : IsHandle t Alive Closed) (fuel : ℕ)
    → IsHandle (stream_over t fuel) (λ c. Sane handle c.conn) (λ c. Sane handle c.conn)
stream_over-IsHandle handle fuel = record {
  read-Alive = λ c n h. stream_read-Sane handle fuel n c h;
  write-Alive = λ c bs h. stream_write-Sane handle bs c h;
  close-Closed = λ c h. stream_close-Sane handle c.conn c.ctx h;
}

module _ {net above : Transport} {Alive Closed : net.State → Type 0}
    {Alive' Closed' : above.State → Type 0} (handle : IsHandle net Alive Closed)
    (handle' : IsHandle above Alive' Closed') where
  -- a handshake leaves its stream open, under a stream that is, or to its caller
  abbrev pub Shaken : Res above.State → net.State → Type 0
  Shaken (ok a) s = Alive' a
  Shaken failed s = Alive s
  Shaken undefined s = Alive s
  Shaken stuck s = Alive s

  -- Where the result is a failure, the stream was closed, if there is one. Where it is a success,
  -- there is a session, whose stream is closed only if the session is.
  abbrev pub IsTidy : Res (Unit {0}) → Link net above → Type 0
  IsTidy (ok u) no_link = ⊥
  IsTidy failed no_link = Unit {0}
  IsTidy undefined no_link = Unit {0}
  IsTidy stuck no_link = Unit {0}
  IsTidy (ok u) (raw s) = ⊥
  IsTidy failed (raw s) = Closed s
  IsTidy undefined (raw s) = Alive s
  IsTidy stuck (raw s) = Alive s
  IsTidy (ok u) (secured c) = Sane handle' c
  IsTidy failed (secured c) = ⊥
  IsTidy undefined (secured c) = Sane handle' c
  IsTidy stuck (secured c) = Sane handle' c

  abbrev pub Tidied : Res (Unit {0}) × Link net above → Type 0
  Tidied out = IsTidy out.0 out.1

  module _ (p : Protobuf) (peer_id_of : List ℕ → ℕ → Option (List ℕ)) (fuel : ℕ)
      (me : Identity) where
    settled-ne-failed : {A : Type 0} (r : Res A) → settled r ≢ failed
    settled-ne-failed (ok a) = λ e. cc
    settled-ne-failed failed = λ e. cc
    settled-ne-failed undefined = λ e. cc
    settled-ne-failed stuck = λ e. cc

    hung_up_lem :
        (r : Res (Unit {0})) (c : Chan above)
        → r ≢ failed
        → Sane handle' c.conn
        → IsTidy
            (hung_up p peer_id_of above fuel me r c).0
            (secured (hung_up p peer_id_of above fuel me r c).1)
    hung_up_lem (ok u) c ne h = stream_close-Sane handle' c.conn c.ctx h
    hung_up_lem failed c ne h = absurd (ne refl)
    hung_up_lem undefined c ne h = h
    hung_up_lem stuck c ne h = h

    introduced_lem :
        (r : Res (Unit {0})) (c : Chan above)
        → Sane handle' c.conn
        → (let end = introduced p peer_id_of above fuel me r c in
            let out = hung_up p peer_id_of above fuel me end.0 end.1 in
            IsTidy out.0 (secured out.1))
    introduced_lem (ok u) c h =
        let t : Transport = stream_over above fuel in
        let got : Res RemotePeer × Chan above = receive p t peer_id_of nobody c in
        let quiet = receive-Quiet (stream_over-IsHandle handle' fuel) p peer_id_of nobody in
        hung_up_lem (settled got.0) got.1 (settled-ne-failed got.0) (quiet.run c h)
    introduced_lem failed c h = hung_up_lem (ok tt) c (λ e. cc) h
    introduced_lem undefined c h = h
    introduced_lem stuck c h = h

    exchange_lem :
        (r : Res StreamContext) (c : Conn above)
        → Sane handle' c
        → (let out = exchange p peer_id_of above fuel me r c in IsTidy out.0 (secured out.1))
    exchange_lem (ok x) c h =
        let start : Chan above = record { conn = c; ctx = x } in
        let sent : Res (Unit {0}) × Chan above =
          send_response p (stream_over above fuel) me start in
        let quiet = send_response-Quiet (stream_over-IsHandle handle' fuel) p me in
        introduced_lem sent.0 sent.1 (quiet.run start h)
    exchange_lem failed c h = h
    exchange_lem undefined c h = h
    exchange_lem stuck c h = h

    identify_lem :
        (c : Conn above)
        → Sane handle' c
        → (let out = identify p peer_id_of above fuel me c in IsTidy out.0 (secured out.1))
    unfolding identify
    identify_lem c h =
        exchange_lem (stream_open above fuel c).0 (stream_open above fuel c).1
          (stream_open-Sane handle' fuel c h)

    module _ (handshake : M net.State above.State)
        (shakes : (s : net.State) → Alive s → Shaken (handshake s).0 (handshake s).1) where
      with_noise_lem :
          (r : Res above.State) (s : net.State)
          → Shaken r s
          → Tidied (
              or_close p peer_id_of net above fuel me handshake
                (with_session p peer_id_of net above fuel me handshake)
                r
                s)
      with_noise_lem (ok a) s h =
          identify_lem (record { net = a; session = session_new false })
            (inl (record { live = h; unclosed = refl; held = refl }))
      with_noise_lem failed s h = handle.close-Closed s h
      with_noise_lem undefined s h = h
      with_noise_lem stuck s h = h

      with_stream_lem :
          (r : Res (Unit {0})) (s : net.State)
          → Alive s
          → Tidied (
              or_close p peer_id_of net above fuel me handshake
                (with_noise p peer_id_of net above fuel me handshake)
                r
                s)
      with_stream_lem (ok u) s h = with_noise_lem (handshake s).0 (handshake s).1 (shakes s h)
      with_stream_lem failed s h = handle.close-Closed s h
      with_stream_lem undefined s h = h
      with_stream_lem stuck s h = h

      dialed_lem :
          (o : Option net.State)
          → ((s : net.State) → o ≡ some s → Alive s)
          → Tidied (with_stream p peer_id_of net above fuel me handshake o)
      dialed_lem none h = tt
      dialed_lem (some s) h =
          with_stream_lem (connect net s).0 (connect net s).1
            ((connect-Quiet handle).run s (h s refl))

      module _ (dial : Bool → Option (List ℕ) → ℕ → Option net.State)
          (dials : (ws : Bool) (ip : Option (List ℕ)) (port : ℕ) (s : net.State)
            → dial ws ip port ≡ some s
            → Alive s) where
        with_address_lem :
            (text : List ℕ) (r : Res MultiAddress)
            → Tidied (with_address p peer_id_of net above fuel me handshake dial text r)
        with_address_lem text (ok ma) =
            dialed_lem (dial (contains (codes "/ws") (c_string text)) ma.ip ma.port)
              (dials (contains (codes "/ws") (c_string text)) ma.ip ma.port)
        with_address_lem text failed = tt
        with_address_lem text undefined = tt
        with_address_lem text stuck = tt

        -- Where dialers give streams that are open, and a handshake that fails leaves its stream open,
        -- a call that fails has closed the stream that it dialed, if any. A call that succeeds leaves a
        -- session, whose stream is open, or has been closed since the peer said GO_AWAY. No stream
        -- is used after it is closed.
        pub swarm_connect-IsTidy :
            (text : List ℕ)
            → Tidied (swarm_connect p peer_id_of net above fuel me handshake dial text)
        unfolding swarm_connect
        swarm_connect-IsTidy text = with_address_lem text (new_from_string (c_string text))
