-- ===== src/Swarm/Tests.antt =====
-- A connection over streams in memory, with a handshake that changes nothing.
use c_libp2p.Base.{ℕ, ◌≡◌, refl, subst, List, [], ◌++◌, Option, some, codes, Bool, length}
use c_libp2p.Transport.{ok, M}
use c_libp2p.Transport.Door.{Door, door, IsAjar, door-IsHandle}
use c_libp2p.Protobuf.Tests.{plain}
use c_libp2p.Multistream.{header, len_prefix}
use c_libp2p.Identify.{Identity}
use c_libp2p.Yamux.{header_bytes, type_window_update, flag_ack}
use c_libp2p.Swarm.{swarm_connect, identify}
use c_libp2p.Multiaddr.{new_from_string, parse, part_of, atoi_port}
use c_libp2p.Base.{tokens, cut, bytes_eq, c_string}
use c_libp2p.Multistream.{connect, write_msg, read_msg, read_len, read_len_rounds}
use c_libp2p.Transport.{write_full, read_byte, read_full, forever}
use c_libp2p.Identify.{
  receive, response, prefix_rounds, read_varint_length, send_response, write_rounds, info_rounds,
  identified,
}
use c_libp2p.Yamux.{discard_payload, handle_control_frame, read_header, send_header}
use c_libp2p.Yamux.Open.{open_round, queue_data, queue_syn, stream_open}
use c_libp2p.Yamux.Stream.{
  buffer_pending, read_frame, read_round, replenish, stream_close, stream_read, stream_write,
  take_payload,
}
use c_libp2p.Swarm.Tidy.{Tidied, swarm_connect-IsTidy}

-- a listener that greets, and acknowledges the first stream
abbrev dialed : Door
dialed = record {
  line = record {
    inbox = len_prefix (length header) ++ header ++ header_bytes type_window_update flag_ack 1 0;
    sizes = [];
    outbox = [];
  };
  closes = 0;
  misuses = 0;
}

abbrev dial : Bool → Option (List ℕ) → ℕ → Option Door
dial ws ip port = some dialed

abbrev unnamed : List ℕ → ℕ → Option (List ℕ)
unnamed key size = some key

abbrev me : Identity
me = record { public_key = codes "key"; listen_addrs = [] }

abbrev plain_handshake : M Door Door
plain_handshake s = (ok s, s)

same_door : (d e : Door) → ◌≡◌ {A = Option Door} (some d) (some e) → d ≡ e
same_door d e h = cc

swarm_connect-IsTidy_example :
    Tidied door-IsHandle door-IsHandle
      (swarm_connect plain unnamed door door 3 me plain_handshake dial (codes "/ip4/1/tcp/80"))
swarm_connect-IsTidy_example =
    swarm_connect-IsTidy door-IsHandle door-IsHandle plain unnamed 3 me plain_handshake (λ s h. h)
      dial (λ ws ip port s e. subst IsAjar (same_door dialed s e) (refl, refl))
      (codes "/ip4/1/tcp/80")

-- The greeting is right, the handshake changes nothing, and the first stream is acknowledged: the
-- call succeeds, although the peer tells nothing of itself.
connects :
    (swarm_connect plain unnamed door door 3 me plain_handshake dial (codes "/ip4/1/tcp/80")).0
    ≡ ok tt
unfolding swarm_connect identify new_from_string parse part_of atoi_port tokens cut bytes_eq
    c_string connect write_msg write_full len_prefix read_msg read_len read_len_rounds read_byte
    read_full receive response prefix_rounds read_varint_length send_response write_rounds
    info_rounds identified forever open_round queue_data queue_syn stream_open buffer_pending
    read_frame read_round replenish stream_close stream_read stream_write take_payload
    discard_payload handle_control_frame read_header send_header
connects = refl
