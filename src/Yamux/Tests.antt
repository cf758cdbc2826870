-- ===== src/Yamux/Tests.antt =====
-- Runs over a concrete connection, and the theorems at concrete inputs.
use c_libp2p.Base.{ℕ, ◌+◌, ◌*◌, ◌≤◌, ◌<◌, ◌≡◌, refl, List, [], ◌∷◌, ◌++◌, true, false, inl, inr}
use c_libp2p.Base.{arith, codes}
use c_libp2p.Transport.{ok, failed, ◌>>=◌, write_full}
use c_libp2p.Transport.Wire.{Wire, wire, wire_reliable}
use c_libp2p.Transport.Door.{Door, door, IsShut, door-IsHandle}
use c_libp2p.Yamux.Lifetime.{
  Call, open_call, goaway_call, ping_call, read_call, calls, session_free-calls,
}
use c_libp2p.Yamux.Open.{session_free}
use c_libp2p.Yamux.{
  send_header, Header, Session, Pending, session_new, header_bytes, initial_window,
}
use c_libp2p.Yamux.{type_data, type_window_update, type_ping, flag_syn, flag_ack, flag_fin}
use c_libp2p.Yamux.Stream.{StreamContext, new_context, stream_read, stream_write, replenish}
use c_libp2p.Yamux.Open.{stream_open, stream_accept}
use c_libp2p.Yamux.Frames.{chan_at, conn_at, frame, wire_of, RanChan, RanConn}
use c_libp2p.Yamux.Write.{stream_write-Ran}
use c_libp2p.Yamux.Delivery.{stream_read-Ran}
use c_libp2p.Yamux.Read.{IsReady}
use c_libp2p.Yamux.EndToEnd.{stream_read-stream_write, replenish_bounds}
use c_libp2p.Yamux.Leftover.{read_twice}
use c_libp2p.Yamux.Sessions.{accept_after_open}
use c_libp2p.Yamux.Opening.{stream_open-Ran, id_taken}

abbrev client : Session
client = session_new false

abbrev server : Session
server = session_new true

-- A connection with `bs` before it, read in pieces of one, three and two bytes at first.
abbrev peer : List ℕ → Wire
peer bs = record { inbox = bs; sizes = 0 ∷ 2 ∷ 1 ∷ []; outbox = [] }

abbrev hello : List ℕ
hello = codes "hello"

abbrev one : StreamContext
one = new_context 1 true

abbrev narrow : StreamContext
narrow = record one { send_window = 3 }

abbrev hello_header : Header
hello_header = frame type_data 0 1 5

ready : IsReady client one
ready = record {
  session_open = refl;
  stream_open = refl;
  used_up = omega arith;
  bounded = omega arith;
}

prepared : IsReady server one
prepared = record {
  session_open = refl;
  stream_open = refl;
  used_up = omega arith;
  bounded = omega arith;
}

stream_write-Ran_example :
    RanChan wire_reliable
      (peer [])
      (ok 3)
      (client, record one { send_window = 0 })
      []
      (header_bytes type_data 0 1 3 ++ codes "hel")
      (stream_write wire hello (chan_at (peer []) (client, narrow)))
stream_write-Ran_example =
    stream_write-Ran wire_reliable client narrow hello [] refl refl (λ e. cc) (omega arith) tt refl

-- a ping and a window update before the data
abbrev ping : Header
ping = frame type_ping flag_syn 0 7

abbrev update : Header
update = frame type_window_update 0 1 100

abbrev busy : List ℕ
busy = wire_of ping ++ (wire_of update ++ []) ++ (wire_of hello_header ++ (hello ++ (9 ∷ [])))

stream_read-Ran_example :
    RanChan wire_reliable
      (peer busy)
      (ok (codes "he"))
      (
        client,
        record one {
          send_window = 262244;
          recv_window = 262139;
          read_buffer = hello;
          read_buffer_pos = 2;
        },
      )
      (9 ∷ [])
      (header_bytes type_ping flag_ack 0 7)
      (stream_read wire 3 2 (chan_at (peer busy) (client, one)))
stream_read-Ran_example =
    stream_read-Ran wire_reliable (ping ∷ update ∷ []) client one 3 2 hello_header hello (9 ∷ [])
      ready ((omega arith, inl refl), ((omega arith, inr refl), tt)) (omega arith) (omega arith)
      refl refl refl (omega arith) tt refl

abbrev hello_frame : List ℕ
hello_frame = wire_of hello_header ++ hello

stream_read-stream_write_example :
    ((stream_write wire hello (chan_at (peer []) (client, one))).0 ≡ ok 5)
    × ((stream_read wire 1 5 (chan_at (peer hello_frame) (server, one))).0 ≡ ok hello)
    × ((stream_read wire 1 5 (chan_at (peer hello_frame) (server, one))).1.conn.net.inbox ≡ [])
unfolding stream_write write_full send_header
stream_read-stream_write_example =
    stream_read-stream_write wire_reliable wire_reliable (peer []) (peer hello_frame) client server
      one one hello hello_frame [] 0 5 refl refl (λ e. omega arith) (omega arith) prepared refl
      (omega arith) tt tt refl refl

replenish_bounds_example :
    let out = (replenish wire 200000 (chan_at (peer []) (client, one))).1 in
    let w = out.ctx.recv_window in
    (w ≤ initial_window)
    × (initial_window < 2 * w)
    × (w ≡ 262144)
    × (out.conn.net.outbox ≡ header_bytes 1 0 1 200000)
replenish_bounds_example =
    replenish_bounds wire_reliable wire_reliable (peer []) client one 200000 (omega arith) tt

abbrev last_header : Header
last_header = frame type_data flag_fin 1 5

abbrev last_frame : List ℕ
last_frame = wire_of last_header ++ (hello ++ [])

read_twice_example :
    let first = stream_read wire 1 2 (chan_at (peer last_frame) (client, one)) in
    let second = stream_read wire 1 3 first.1 in
    (first.0 ≡ ok (codes "he")) × (second.0 ≡ failed) × (second.1.conn.net.inbox ≡ [])
read_twice_example =
    read_twice wire_reliable (peer last_frame) client one 0 0 2 3 last_header hello [] ready
      (omega arith) refl refl refl (omega arith) tt refl

abbrev credit : Header
credit = frame type_window_update 0 1 5

-- the SYN of the peer's stream 2, and the ACK of stream 1
abbrev peer_syn : Header
peer_syn = frame type_window_update flag_syn 2 0

abbrev own_ack : Header
own_ack = frame type_window_update flag_ack 1 10

abbrev syn_then_ack : List ℕ
syn_then_ack = wire_of peer_syn ++ (wire_of own_ack ++ (9 ∷ []))

stream_open-Ran_example :
    RanConn wire_reliable
      (peer syn_then_ack)
      (ok (record (new_context 1 true) { send_window = initial_window + 10 }))
      (record client {
        next_stream_id = 3;
        pending_inbound = record { stream_id = 2; payload = [] } ∷ [];
      })
      (9 ∷ [])
      (header_bytes type_window_update flag_syn 1 0 ++ header_bytes type_window_update flag_ack 2 0)
      (stream_open wire 2 (conn_at (peer syn_then_ack) client))
stream_open-Ran_example =
    stream_open-Ran wire_reliable (peer_syn ∷ []) client 2 own_ack (9 ∷ []) refl
      ((omega arith, refl, refl, λ e. omega arith), tt) (omega arith) (omega arith) refl refl refl
      tt refl

abbrev waiting : Pending
waiting = record { stream_id = 2; payload = hello }

abbrev pong : Header
pong = frame type_ping flag_ack 0 1

accept_after_open_example :
    let ack = header_bytes type_window_update flag_ack 2 0 in
    RanConn wire_reliable
      (peer syn_then_ack)
      (ok (new_context 2 true))
      (id_taken client)
      (9 ∷ [])
      (header_bytes type_window_update flag_syn 1 0 ++ (ack ++ ack))
      ((stream_open wire 2 >>= λ x. stream_accept wire 1) (conn_at (peer syn_then_ack) client))
accept_after_open_example =
    accept_after_open wire_reliable client peer_syn own_ack 2 1 (9 ∷ []) refl refl
      (omega arith, refl, refl, λ e. omega arith) (omega arith) (omega arith) refl refl refl tt refl

abbrev ajar : Door
ajar = record { line = peer syn_then_ack; closes = 0; misuses = 0 }

abbrev some_calls : List Call
some_calls = open_call 3 ∷ goaway_call 0 ∷ ping_call 2 ∷ read_call (new_context 2 true) 3 16 ∷ []

-- What comes after a GO_AWAY finds the session closed.
session_free-calls_example :
    IsShut
      (session_free door
        (calls door some_calls (record { net = ajar; session = session_new false }))).1.net
session_free-calls_example = session_free-calls door-IsHandle false ajar some_calls (refl, refl)
