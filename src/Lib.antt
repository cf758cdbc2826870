-- ===== src/Lib.antt =====
-- c-libp2p: the protocols of v2 that a connection is built from, and stores and streams of v1.
--
-- A connection of v2 is a tower of byte streams. At the bottom stands a socket; a security layer
-- gives the next stream; on it the multistream protocol settles which multiplexer is spoken, and
-- the multiplexer gives streams of its own, on which multistream settles the protocols of the
-- user. Each layer calls the one below through the three function pointers of
-- `struct Libp2pV2Stream` only. The development follows this: a layer is a function of a
-- `Transport`, the interface of those three calls, and its state lies over the state of the stream
-- below.
--
-- - Base: numbers, lists, bits, bytes in network order and C strings.
-- - Transport: `struct Libp2pV2Stream` of v2/include/libp2p/net/tcp.h as a record of functions,
--   the result of a C function (`ok`, `failed`, and two that are none: `undefined` for behaviour
--   that C does not define, `stuck` for a model that is out of fuel), the loops that read and
--   write a number of bytes, and `Reliable`: what a stream with bytes in order and without loss
--   promises. Its children have the rules by which the runs of the protocols are put together
--   (Triple for code whose only state is the stream, Run for code with state of its own, Handle for
--   what becomes of a stream that may be closed), and two streams in memory: Wire, which delivers its
--   bytes in pieces of any sizes, and Door, which counts how often it is closed.
-- - Multistream: v2/src/conn/multistream.c. `write_msg` is write_length_prefixed_msg, `read_msg` is
--   read_length_prefixed_msg, `connect`, `negotiate` and `accept` are
--   libp2p_v2_net_multistream_connect, libp2p_net_multistream_negotiate_protocol and
--   libp2p_net_multistream_accept.
-- - Noise: v2/src/conn/noise.c, the encrypted stream after its handshake: noise_stream_read and
--   noise_stream_write over any cipher (`Authentic` is what is relied on of it).
-- - Payload: v2/src/conn/noise.c, noise_payload_encode and noise_payload_decode, over Protobuf, the
--   interface of the library of protobuf messages, which the repository has as a submodule.
-- - PeerBook: v2/src/peer/peerstore.c. `v2_add_peer`, `v2_get_peer`, `v2_add_address` and
--   `v2_peerstore_free` are the functions of these names; peers are cells of a heap, since callers
--   share them with the store.
-- - Multiaddr: v2/src/net/multiaddr.c, libp2p_multiaddr_new_from_string.
-- - Secio: secio/secio.c. The parent has the choice of algorithms (libp2p_secio_determine_order,
--   libp2p_secio_select_best and the part of libp2p_secio_handshake that calls them), Keys has
--   libp2p_secio_stretch_keys and which key is whose, Packets has libp2p_secio_encrypt and
--   libp2p_secio_decrypt; `Engine` and the hash function stand for mbedtls.
--   Proposal has the encoder and the decoder of secio/propose.c.
-- - Identify: v2/src/identify/identify_v2.c; `send_response` is libp2p_identify_send_response and
--   `receive` is libp2p_identify_receive.
-- - Swarm: v2/src/swarm/swarm.c; `swarm_connect` is libp2p_v2_swarm_connect, which puts Multiaddr,
--   Multistream, a handshake, Yamux and Identify together. A read of a stream passes over a given
--   number of frames at most.
-- - Yamux: v2/src/conn/yamux.c. `Session` and `StreamContext` are its two structs, `Conn` and
--   `Chan` put them over the stream below. `send_header`, `read_header`, `handle_control_frame` and
--   `discard_payload` are the static functions of these names; Stream has the three
--   functions of a stream, Open those of a session.
-- - Buffer: utils/threadsafe_buffer.c, against a queue of bytes.
-- - Vector: utils/vector.c. Providers, peer/providerstore.c, keeps its entries in one.
-- - Channel: the streams of the multiplexer of v1, yamux/stream.c, with the frame encoder of
--   yamux/frame.c, libp2p_yamux_channel_send_FIN of yamux/yamux.c and what
--   yamux_decode of yamux/session.c makes of the flags of a frame.
-- - Streams: the array of streams of a v1 session, with the memory that its slots point to.
-- - Peerstore: peer/peerstore.c, with the constructor and the copy of peer/peer.c.
-- - UrlEncode: utils/urlencode.c.
--
-- Numbers are natural numbers; where the code computes in a uint32_t or a size_t, the remainder is
-- written out. Bytes are numbers. A C string is a list of bytes up to its NUL.
--
-- Loops. A loop that reads n bytes takes n units of fuel, as each round reads one byte at least.
-- The loop over the groups of a varint takes eleven. A loop over frames (`for (;;)`) takes the
-- number of frames it may read as an argument, as a peer may send pings for ever; its theorems
-- give the number that is enough.
--
-- Not modelled: that malloc or realloc fails (but in Buffer and Vector, where realloc may), NULL
-- arguments and the log. Of the rest of the repository, the handshakes of the security layers,
-- the sockets, the DHT, the connections and services of v1, and the copies of other projects are
-- not modelled here.
pub mod Base
pub mod Transport
pub mod Multistream
pub mod Yamux
pub mod Buffer
pub mod Vector
pub mod Peerstore
pub mod Providers
pub mod Channel
pub mod UrlEncode
pub mod Noise
pub mod Streams
pub mod Secio
pub mod Multiaddr
pub mod PeerBook
pub mod Protobuf
pub mod Payload
pub mod Identify
pub mod Swarm
