-- ===== src/Channel.antt =====
-- yamux/stream.c and yamux/frame.c: the streams of the multiplexer of v1, from the side of the
-- channel; and the part of yamux_decode (yamux/session.c) that a frame's flags decide.
-- A stream has its state twice: in the channel context, which the functions of yamux/stream.c go
-- by, and in the array of the session, which yamux_decode goes by.
pub mod Pieces
pub mod Closing
mod Tests
use c_libp2p.Base.{ℕ, zero, suc, ◌+◌, ◌-◌, List, [], ◌∷◌, ◌++◌, Option, none, some, min, length}
use c_libp2p.Base.{
  Bool, true, false, not, ltb, ◌==◌, ◌&&◌, ◌||◌, if◌then◌else◌, bit_and, take, drop,
}
use c_libp2p.Base.{be16, be32, ℤ, pos, negsuc}
use c_libp2p.Transport.{Res, ok, stuck}

-- enum yamux_stream_state
pub data StreamState : Type 0 where
  inited syn_sent syn_recv est closing closed : StreamState

abbrev pub state_eq : StreamState → StreamState → Bool
state_eq inited inited = true
state_eq syn_sent syn_sent = true
state_eq syn_recv syn_recv = true
state_eq est est = true
state_eq closing closing = true
state_eq closed closed = true
state_eq _ _ = false

abbrev pub frame_syn : ℕ
frame_syn = 1

abbrev pub frame_ack : ℕ
frame_ack = 2

abbrev pub frame_fin : ℕ
frame_fin = 4

abbrev pub frame_rst : ℕ
frame_rst = 8

abbrev pub frame_data : ℕ
frame_data = 0

abbrev pub frame_window_update : ℕ
frame_window_update = 1

-- -EINVAL and -EPROTO
abbrev pub einval : ℤ
einval = negsuc 21

abbrev pub eproto : ℤ
eproto = negsuc 70

-- The `write` of the stream below, which takes a whole message or fails.
pub record Parent : Type 1 where
  pub State : Type 0
  pub write : List ℕ → State → Bool × State

-- struct YamuxChannelContext. `session_state` is the state of the stream with this id in the
-- session, where there is one; `window_size` is read as a uint32_t.
pub record Channel : Type 0 where
  pub channel : ℕ
  pub window_size : ℕ
  pub state : StreamState
  pub is_closed : Bool
  pub session_state : Option StreamState

-- the channel that yamux_channel_new makes
abbrev pub channel_new : ℕ → ℕ → Channel
channel_new id window_size = record {
  channel = id;
  window_size = window_size;
  state = inited;
  is_closed = false;
  session_state = some inited;
}

-- encode_frame: the bytes of a frame on the wire
abbrev pub encode_frame : ℕ → ℕ → ℕ → ℕ → List ℕ
encode_frame type flags id len = 0 ∷ type ∷ (be16 flags ++ (be32 id ++ be32 len))

-- a state for the channel, and for the stream of the session
abbrev pub set_both : StreamState → Channel → Channel
set_both s c = record c {
  state = s;
  session_state = elim c.session_state [ none ↦ none | some old ↦ some s ];
}

-- get_flags, of a channel
unfoldable pub get_flags : Channel → ℕ × Channel
get_flags c = elim c.state [
  | inited ↦ (frame_syn, set_both syn_sent c)
  | syn_recv ↦ (frame_ack, set_both est c)
  | syn_sent ↦ (0, c)
  | est ↦ (0, c)
  | closing ↦ (0, c)
  | closed ↦ (0, c)
]

-- what a frame does to the stream of the session, as far as its flags go: yamux_decode. A FIN asks
-- yamux_stream_close to answer, but hands it the result of libp2p_yamux_get_parent_channel_context,
-- which is NULL, so that nothing is sent. A stream that is closed is not found any more; a SYN with
-- its id makes another stream, which is not in view here.
unfoldable pub receive_flags : ℕ → Channel → ℤ × Channel
receive_flags flags c = elim c.session_state [
  | none ↦ (eproto, c)
  | some s ↦
      if state_eq s closed
      then (eproto, c)
      else if ltb 0 (bit_and flags frame_rst)
      then (pos 0, record c { session_state = some closed })
      else if ltb 0 (bit_and flags frame_fin)
      then (pos 0, record c { session_state = some closed })
      else if ltb 0 (bit_and flags frame_ack)
      then (if state_eq s syn_sent
          then (pos 0, record c { session_state = some est })
          else (eproto, c))
      else if ltb 0 flags
      then (eproto, c)
      else (pos 0, c)
]

-- a channel over the stream below its connection
pub record Link (p : Parent) : Type 0 where
  pub parent : p.State
  pub ctx : Channel

module _ (p : Parent) where
  -- yamux_write_frame: the number of bytes, 0 on error
  unfoldable pub write_frame : ℕ → ℕ → ℕ → Link p → ℤ × Link p
  write_frame type flags len l =
      let out = p.write (encode_frame type flags l.ctx.channel len) l.parent in
      (if out.0 then pos 12 else pos 0, record l { parent = out.1 })

  -- yamux_stream_init
  unfoldable pub stream_init : Link p → ℤ × Link p
  stream_init l =
      if not (state_eq l.ctx.state inited) || l.ctx.is_closed
      then (einval, l)
      else write_frame frame_window_update frame_syn 0 (record l { ctx = set_both syn_sent l.ctx })

  -- yamux_stream_close, of a channel
  unfoldable pub channel_close : Link p → ℤ × Link p
  channel_close l =
      if not (state_eq l.ctx.state est) || l.ctx.is_closed
      then (einval, l)
      else write_frame frame_window_update frame_fin 0
          (record l { ctx = record l.ctx { state = closing } })

  -- yamux_stream_reset
  unfoldable pub channel_reset : Link p → ℤ × Link p
  channel_reset l =
      if l.ctx.is_closed
      then (einval, l)
      else write_frame frame_window_update frame_rst 0
          (record l { ctx = record l.ctx { state = closed } })

  -- libp2p_yamux_channel_send_FIN, of a channel over some stream, in any state
  unfoldable pub channel_send_fin : Link p → ℤ × Link p
  channel_send_fin l = (pos 1, (write_frame frame_window_update frame_fin 0 l).1)

  -- yamux_stream_window_update, of a delta as a uint32_t
  unfoldable pub window_update : ℕ → Link p → ℤ × Link p
  window_update delta l =
      if state_eq l.ctx.state closed || state_eq l.ctx.state closing || l.ctx.is_closed
      then (einval, l)
      else write_frame frame_window_update (get_flags l.ctx).0 delta
          (record l { ctx = (get_flags l.ctx).1 })

  -- one message of yamux_stream_write: a frame and its part of the data
  abbrev pub piece : ℕ → ℕ → List ℕ → List ℕ
  piece flags id bytes = encode_frame frame_data flags id (length bytes) ++ bytes

  -- the loop of yamux_stream_write, `total` being the length of all the data
  pub write_rounds : ℕ → ℕ → List ℕ → Link p → Res ℤ × Link p
  write_rounds fuel total [] l = (ok (pos total), l)
  write_rounds zero total (b ∷ bytes) l = (stuck, l)
  write_rounds (suc fuel) total (b ∷ bytes) l =
      let adv = min (length (b ∷ bytes)) l.ctx.window_size in
      let out = p.write (piece (get_flags l.ctx).0 l.ctx.channel (take adv (b ∷ bytes))) l.parent in
      let l' : Link p = record { parent = out.1; ctx = (get_flags l.ctx).1 } in
      let rest = write_rounds fuel total (drop adv (b ∷ bytes)) l' in
      if out.0 then rest else (ok (pos adv), l')

  -- yamux_stream_write
  unfoldable pub channel_write : ℕ → List ℕ → Link p → Res ℤ × Link p
  channel_write fuel bytes l =
      if length bytes == 0 then (ok einval, l) else write_rounds fuel (length bytes) bytes l
