-- ===== src/Yamux.antt =====
-- v2/src/conn/yamux.c: the multiplexer of v2. This file has the frames, the two kinds of state and
-- the functions of a session; the children have those of a stream, and the laws.
-- `malloc` and `realloc` are taken to succeed, and the log lines are left out.

pub mod Stream
pub mod Open
pub mod Frames
pub mod Handle
pub mod Released
pub mod Reading
pub mod Serving
pub mod Lifetime
pub mod Write
pub mod Read
pub mod Delivery
pub mod EndToEnd
pub mod Leftover
pub mod Control
mod Tests
pub mod Opening
pub mod Sessions
use c_libp2p.Base.{ℕ, zero, suc, ◌+◌, ◌-◌, ◌*◌, ◌/◌, List, [], ◌∷◌, ◌++◌, Option, none, some, min}
use c_libp2p.Base.{Bool, true, false, not, ◌&&◌, ◌||◌, ◌==◌, ltb, if◌then◌else◌, bit_and, length}
use c_libp2p.Base.{be16, be32, from_be16, from_be32}
use c_libp2p.Transport.{Transport, Res, ok, failed, M, ◌>>=◌, ◌>>◌, pure, fail, guard, attempt}
use c_libp2p.Transport.{read_full, write_full}

-- YAMUX_TYPE_* and YAMUX_FLAG_*
abbrev pub type_data : ℕ
type_data = 0

abbrev pub type_window_update : ℕ
type_window_update = 1

abbrev pub type_ping : ℕ
type_ping = 2

abbrev pub type_go_away : ℕ
type_go_away = 3

abbrev pub flag_syn : ℕ
flag_syn = 1

abbrev pub flag_ack : ℕ
flag_ack = 2

abbrev pub flag_fin : ℕ
flag_fin = 4

abbrev pub initial_window : ℕ
initial_window = 256 * 1024

abbrev pub window_threshold : ℕ
window_threshold = initial_window / 2

abbrev pub max_payload : ℕ
max_payload = 65535

-- struct YamuxHeader, with its numbers in host order
pub record Header : Type 0 where
  pub version : ℕ
  pub type : ℕ
  pub flags : ℕ
  pub stream_id : ℕ
  pub length_ : ℕ

-- `hdr->flags & flag`
abbrev pub has_flag : Header → ℕ → Bool
has_flag h flag = ltb 0 (bit_and h.flags flag)

-- the 12 bytes that `yamux_send_header` writes
abbrev pub header_bytes : ℕ → ℕ → ℕ → ℕ → List ℕ
header_bytes type flags stream_id len = 0 ∷ type ∷ be16 flags ++ (be32 stream_id ++ be32 len)

-- the header that 12 bytes on the stream stand for
abbrev pub header_of : List ℕ → Header
header_of (v ∷ t ∷ f1 ∷ f0 ∷ s3 ∷ s2 ∷ s1 ∷ s0 ∷ l3 ∷ l2 ∷ l1 ∷ l0 ∷ bs) = record {
  version = v;
  type = t;
  flags = from_be16 f1 f0;
  stream_id = from_be32 s3 s2 s1 s0;
  length_ = from_be32 l3 l2 l1 l0;
}
header_of bs = record { version = 0; type = 0; flags = 0; stream_id = 0; length_ = 0 }

-- struct YamuxPendingInbound. `data_pos` is only ever 0.
pub record Pending : Type 0 where
  pub stream_id : ℕ
  pub payload : List ℕ

-- struct YamuxSession. `attached` says that `underlying_stream` is not NULL; `pending_inbound` is
-- the linked list from its head on.
pub record Session : Type 0 where
  pub next_stream_id : ℕ
  pub is_server : Bool
  pub closed : Bool
  pub ping_seq : ℕ
  pub pending_inbound : List Pending
  pub attached : Bool

-- a session over the stream below it
pub record Conn (t : Transport) : Type 0 where
  pub net : t.State
  pub session : Session

-- libp2p_yamux_session_new
abbrev pub session_new : Bool → Session
session_new is_server = record {
  next_stream_id = if is_server then 2 else 1;
  is_server = is_server;
  closed = false;
  ping_seq = 1;
  pending_inbound = [];
  attached = true;
}

-- yamux_pending_exists
abbrev pub pending_exists : ℕ → List Pending → Bool
pending_exists id [] = false
pending_exists id (p ∷ ps) = p.stream_id == id || pending_exists id ps

-- `pending->data` grown by the bytes of a frame, for the first entry with this stream id
abbrev pub pending_append : ℕ → List ℕ → List Pending → List Pending
pending_append id bs [] = []
pending_append id bs (p ∷ ps) =
    if p.stream_id == id
    then record p { payload = p.payload ++ bs } ∷ ps
    else p ∷ pending_append id bs ps

module _ (t : Transport) where
  open t use {State, close}

  -- a run on the stream below, and an update of the session
  abbrev pub on_net : {A : Type 0} → M State A → M (Conn t) A
  on_net m c = ((m c.net).0, record c { net = (m c.net).1 })

  abbrev pub on_session : (Session → Session) → M (Conn t) (Unit {0})
  on_session f c = (ok tt, record c { session = f c.session })

  abbrev pub session : M (Conn t) Session
  session c = (ok c.session, c)

  abbrev pub close_net : M (Conn t) (Unit {0})
  close_net c = (ok tt, record c { net = close c.net })

  -- yamux_send_header
  unfoldable pub send_header : ℕ → ℕ → ℕ → ℕ → M (Conn t) (Unit {0})
  send_header type flags stream_id len =
      on_net (write_full t (header_bytes type flags stream_id len))

  -- yamux_read_header
  unfoldable pub read_header : M (Conn t) Header
  read_header = do bs ← on_net (read_full t 12); pure (header_of bs)

  -- what a GO_AWAY frame does
  abbrev pub hang_up : M (Conn t) (Unit {0})
  hang_up = do
    on_session (λ s. record s { closed = true })
    s ← session
    if s.attached then close_net else pure tt
    fail

  -- yamux_handle_control_frame
  unfoldable pub handle_control_frame : Header → M (Conn t) (Unit {0})
  handle_control_frame h =
      if h.type == type_ping
      then (if has_flag h flag_ack then pure tt else send_header type_ping flag_ack 0 h.length_)
      else if h.type == type_go_away
      then hang_up
      else pure tt

  -- yamux_discard_payload: pieces of 1024 bytes. Each takes a byte at least.
  pub discard_rounds : ℕ → ℕ → M (Conn t) (Unit {0})
  discard_rounds fuel zero = pure tt
  discard_rounds zero (suc n) = λ c. (Res.stuck, c)
  discard_rounds (suc fuel) (suc n) =
      let chunk = min 1024 (suc n) in
      let rest = discard_rounds fuel (suc n - chunk) in on_net (read_full t chunk) >>= λ bs. rest

  unfoldable pub discard_payload : ℕ → M (Conn t) (Unit {0})
  unfolding discard_rounds
  discard_payload n = discard_rounds n n
