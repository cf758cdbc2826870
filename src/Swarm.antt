-- ===== src/Swarm.antt =====
-- v2/src/swarm/swarm.c: libp2p_v2_swarm_connect, which puts the protocols of v2 on each other. The
-- dialers of TCP and WebSocket are the parameter `dial`, libp2p_noise_handshake is `handshake`, which
-- turns the stream that was dialed into one over it. What is done with the memory of the address and
-- with the log is left out.
pub mod Calls
pub mod Tidy
mod Tests
use c_libp2p.Base.{ℕ, zero, suc, List, [], ◌∷◌, Option, none, some, codes, c_string}
use c_libp2p.Base.{Bool, true, false, ◌==◌, ◌&&◌, ◌||◌, if◌then◌else◌}
use c_libp2p.Transport.{Transport, Res, ok, failed, undefined, stuck, M}
use c_libp2p.Multistream.{connect}
use c_libp2p.Multiaddr.{MultiAddress, new_from_string}
use c_libp2p.Protobuf.{Protobuf}
use c_libp2p.Identify.{Identity, RemotePeer, send_response, receive}
use c_libp2p.Yamux.{Conn, session_new}
use c_libp2p.Yamux.Stream.{StreamContext, Chan, stream_read, stream_write, stream_close}
use c_libp2p.Yamux.Open.{stream_open}

abbrev is_prefix : List ℕ → List ℕ → Bool
is_prefix [] bs = true
is_prefix (c ∷ cs) [] = false
is_prefix (c ∷ cs) (b ∷ bs) = c == b && is_prefix cs bs

-- strstr(text, part) != NULL
abbrev pub contains : List ℕ → List ℕ → Bool
contains part [] = is_prefix part []
contains part (b ∷ bs) = is_prefix part (b ∷ bs) || contains part bs

-- the bytes of a read, none for a value of -1 or 0; as is a read that has used up its fuel
abbrev bytes_of : Res (List ℕ) → List ℕ
bytes_of (ok bs) = bs
bytes_of failed = []
bytes_of undefined = []
bytes_of stuck = []

abbrev count_of : Res ℕ → Option ℕ
count_of (ok n) = some n
count_of failed = none
count_of undefined = none
count_of stuck = none

-- A stream of a session as a stream. A read passes over `fuel` frames at most.
abbrev pub stream_over : Transport → ℕ → Transport
stream_over t fuel = record {
  State = Chan t;
  read = λ c n. (bytes_of (stream_read t fuel n c).0, (stream_read t fuel n c).1);
  write = λ c bs. (count_of (stream_write t bs c).0, (stream_write t bs c).1);
  close = λ c. record c { conn = stream_close t c };
}

-- a result that is not looked at
abbrev pub settled : {A : Type 0} → Res A → Res (Unit {0})
settled (ok a) = ok tt
settled failed = ok tt
settled undefined = undefined
settled stuck = stuck

-- The peer at the start. The id that the handshake sets in it is left out, since nothing reads it.
abbrev pub nobody : RemotePeer
nobody = record { peer_id = none; addrs = [] }

-- what libp2p_v2_swarm_connect leaves behind: no stream, the one that was dialed, or a session
pub data Link (net above : Transport) : Type 0 where
  no_link : Link net above
  raw : net.State → Link net above
  secured : Conn above → Link net above

module _ (p : Protobuf) (peer_id_of : List ℕ → ℕ → Option (List ℕ)) where
  module _ (above : Transport) (fuel : ℕ) (me : Identity) where
    abbrev pub introduced : Res (Unit {0}) → Chan above → Res (Unit {0}) × Chan above
    introduced (ok u) c =
        let got = receive p (stream_over above fuel) peer_id_of nobody c in (settled got.0, got.1)
    introduced failed c = (ok tt, c)
    introduced undefined c = (undefined, c)
    introduced stuck c = (stuck, c)

    abbrev pub hung_up : Res (Unit {0}) → Chan above → Res (Unit {0}) × Conn above
    hung_up (ok u) c = (ok tt, stream_close above c)
    hung_up failed c = (failed, c.conn)
    hung_up undefined c = (undefined, c.conn)
    hung_up stuck c = (stuck, c.conn)

    -- the exchange on a stream that was opened, which is then closed
    abbrev pub exchange : Res StreamContext → Conn above → Res (Unit {0}) × Conn above
    exchange (ok x) c =
        let sent = send_response p (stream_over above fuel) me (record { conn = c; ctx = x }) in
        let end = introduced sent.0 sent.1 in hung_up end.0 end.1
    exchange failed c = (ok tt, c)
    exchange undefined c = (undefined, c)
    exchange stuck c = (stuck, c)

    unfoldable pub identify : Conn above → Res (Unit {0}) × Conn above
    identify c = exchange (stream_open above fuel c).0 (stream_open above fuel c).1

  module _ (net above : Transport) (fuel : ℕ) (me : Identity)
      (handshake : M net.State above.State) where
    -- `transport_stream->close(transport_stream)` where a layer fails
    abbrev pub or_close :
        {A : Type 0}
        → (A → net.State → Res (Unit {0}) × Link net above)
        → Res A
        → net.State
        → Res (Unit {0}) × Link net above
    or_close next (ok a) s = next a s
    or_close next failed s = (failed, raw (net.close s))
    or_close next undefined s = (undefined, raw s)
    or_close next stuck s = (stuck, raw s)

    abbrev pub with_session : above.State → net.State → Res (Unit {0}) × Link net above
    with_session a s =
        let end = identify above fuel me (record { net = a; session = session_new false }) in
        (end.0, secured end.1)

    abbrev pub with_noise : Unit {0} → net.State → Res (Unit {0}) × Link net above
    with_noise u s = or_close with_session (handshake s).0 (handshake s).1

    abbrev pub with_stream : Option net.State → Res (Unit {0}) × Link net above
    with_stream none = (failed, no_link)
    with_stream (some s) = or_close with_noise (connect net s).0 (connect net s).1

    module _ (dial : Bool → Option (List ℕ) → ℕ → Option net.State) where
      abbrev pub with_address : List ℕ → Res MultiAddress → Res (Unit {0}) × Link net above
      with_address text (ok ma) =
          with_stream (dial (contains (codes "/ws") (c_string text)) ma.ip ma.port)
      with_address text failed = (failed, no_link)
      with_address text undefined = (undefined, no_link)
      with_address text stuck = (stuck, no_link)

      -- libp2p_v2_swarm_connect
      unfoldable pub swarm_connect : List ℕ → Res (Unit {0}) × Link net above
      swarm_connect text = with_address text (new_from_string (c_string text))
