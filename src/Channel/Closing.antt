-- ===== src/Channel/Closing.antt =====
-- The life of a channel that this side has opened.
use c_libp2p.Base.{ℕ, ◌≡◌, refl, sym, List, [], Option, none, some, Bool, true, false}
use c_libp2p.Base.{ltb, if◌then◌else◌, ℤ, pos, subst, zero, suc, bit_and, ◌∷◌, length}
use c_libp2p.Channel.{
  Parent, Channel, StreamState, inited, syn_sent, syn_recv, est, closing, closed,
}
use c_libp2p.Channel.{channel_new, state_eq, get_flags, receive_flags, Link, write_frame}
use c_libp2p.Channel.{
  stream_init, channel_close, channel_send_fin, channel_reset, window_update, write_rounds,
}
use c_libp2p.Base.{min, take, drop}
use c_libp2p.Transport.{ok}
use c_libp2p.Channel.{piece, channel_write, einval, eproto, frame_rst, frame_fin, frame_ack}

-- What can happen to a channel: its functions, libp2p_yamux_channel_send_FIN, and the frames that
-- come for it. libp2p_yamux_channel_close is no step: it sends a FIN and frees the channel.
pub data Step (p : Parent) : Link p → Link p → Type 0 where
  by_init : (l : Link p) → Step p l (stream_init p l).1
  by_close : (l : Link p) → Step p l (channel_close p l).1
  by_send_fin : (l : Link p) → Step p l (channel_send_fin p l).1
  by_reset : (l : Link p) → Step p l (channel_reset p l).1
  by_update : (l : Link p) (delta : ℕ) → Step p l (window_update p delta l).1
  by_write : (l : Link p) (fuel : ℕ) (bytes : List ℕ) → Step p l (channel_write p fuel bytes l).1
  by_frame : (l : Link p) (flags : ℕ) → Step p l (record l { ctx = (receive_flags flags l.ctx).1 })

pub data Steps (p : Parent) : Link p → Link p → Type 0 where
  start : (l : Link p) → Steps p l l
  next : {a b c : Link p} → Steps p a b → Step p b c → Steps p a c

-- the states that the channel context of an opener can have
abbrev pub IsOpener : StreamState → Type 0
IsOpener inited = Unit
IsOpener syn_sent = Unit
IsOpener syn_recv = ⊥
IsOpener est = ⊥
IsOpener closing = ⊥
IsOpener closed = Unit

get_flags_parts :
    (id window : ℕ) (s : StreamState) (shut : Bool) (o : Option StreamState)
    → IsOpener s
    → IsOpener
        (get_flags (record {
          channel = id;
          window_size = window;
          state = s;
          is_closed = shut;
          session_state = o;
        })).1.state
unfolding get_flags
get_flags_parts id window inited shut o h = tt
get_flags_parts id window syn_sent shut o h = tt
get_flags_parts id window closed shut o h = tt
get_flags_parts id window syn_recv shut o h = absurd h
get_flags_parts id window est shut o h = absurd h
get_flags_parts id window closing shut o h = absurd h

get_flags-IsOpener : (c : Channel) → IsOpener c.state → IsOpener (get_flags c).1.state
get_flags-IsOpener c h =
    get_flags_parts c.channel c.window_size c.state c.is_closed c.session_state h

either_state :
    (b : Bool) (x y : ℤ × Channel) (s : StreamState)
    → x.1.state ≡ s
    → y.1.state ≡ s
    → (if b then x else y).1.state ≡ s
either_state true x y s h k = h
either_state false x y s h k = k

receive_flags-state : (flags : ℕ) (c : Channel) → (receive_flags flags c).1.state ≡ c.state
unfolding receive_flags
receive_flags-state flags c = elim c.session_state as (λ o. (receive flags c o).1.state ≡ c.state) [
  | none ↦ refl
  | some s ↦ either_state (state_eq s closed) _ _ c.state refl (
      either_state (ltb 0 (bit_and flags frame_rst)) _ _ c.state refl (
        either_state (ltb 0 (bit_and flags frame_fin)) _ _ c.state refl (
          either_state (ltb 0 (bit_and flags frame_ack)) _ _ c.state
            (either_state (state_eq s syn_sent) _ _ c.state refl refl)
            (either_state (ltb 0 flags) _ _ c.state refl refl))))
]
  where
    receive : ℕ → Channel → Option StreamState → ℤ × Channel
    receive flags c o = elim o [
      | none ↦ (eproto, c)
      | some s ↦
          if state_eq s closed
          then (eproto, c)
          else if ltb 0 (bit_and flags frame_rst)
          then (pos 0, record c { session_state = some closed })
          else if ltb 0 (bit_and flags frame_fin)
          then (pos 0, record c { session_state = some closed })
          else if ltb 0 (bit_and flags frame_ack)
          then (if state_eq s syn_sent
              then (pos 0, record c { session_state = some est })
              else (eproto, c))
          else if ltb 0 flags
          then (eproto, c)
          else (pos 0, c)
    ]

not_est : (s : StreamState) → IsOpener s → state_eq s est ≡ false
not_est inited h = refl
not_est syn_sent h = refl
not_est closed h = refl
not_est syn_recv h = absurd h
not_est est h = absurd h
not_est closing h = absurd h

module _ (p : Parent) where
  either-IsOpener :
      {A : Type 0} (b : Bool) (x y : A × Link p)
      → IsOpener x.1.ctx.state
      → IsOpener y.1.ctx.state
      → IsOpener (if b then x else y).1.ctx.state
  either-IsOpener true x y h k = h
  either-IsOpener false x y h k = k

  write_frame-IsOpener :
      (type flags len : ℕ) (l : Link p)
      → IsOpener l.ctx.state
      → IsOpener (write_frame p type flags len l).1.ctx.state
  unfolding write_frame
  write_frame-IsOpener type flags len l h = h

  write_rounds-IsOpener :
      (fuel total : ℕ) (bytes : List ℕ) (l : Link p)
      → IsOpener l.ctx.state
      → IsOpener (write_rounds p fuel total bytes l).1.ctx.state
  unfolding write_rounds
  write_rounds-IsOpener fuel total [] l h = h
  write_rounds-IsOpener zero total (b ∷ bytes) l h = h
  write_rounds-IsOpener (suc fuel) total (b ∷ bytes) l h =
      let adv : ℕ = min (length (b ∷ bytes)) l.ctx.window_size in
      let out =
        p.write (piece p (get_flags l.ctx).0 l.ctx.channel (take adv (b ∷ bytes))) l.parent in
      let l' : Link p = record { parent = out.1; ctx = (get_flags l.ctx).1 } in
      let still : IsOpener l'.ctx.state = get_flags-IsOpener l.ctx h in
      either-IsOpener out.0 (write_rounds p fuel total (drop adv (b ∷ bytes)) l') (ok (pos adv), l')
        (write_rounds-IsOpener fuel total (drop adv (b ∷ bytes)) l' still) still

  close_refused : (l : Link p) → IsOpener l.ctx.state → channel_close p l ≡ (einval, l)
  unfolding channel_close
  close_refused l h = rw (not_est l.ctx.state h) refl

  Step-IsOpener : (a b : Link p) → Step p a b → IsOpener a.ctx.state → IsOpener b.ctx.state
  unfolding stream_init channel_reset channel_send_fin window_update channel_write
  Step-IsOpener a b (by_init l) h = either-IsOpener _ _ _ h (write_frame-IsOpener _ _ _ _ tt)
  Step-IsOpener a b (by_close l) h = subst (λ o. IsOpener o.1.ctx.state) (sym (close_refused l h)) h
  Step-IsOpener a b (by_send_fin l) h = write_frame-IsOpener _ _ _ _ h
  Step-IsOpener a b (by_reset l) h = either-IsOpener _ _ _ h (write_frame-IsOpener _ _ _ _ tt)
  Step-IsOpener a b (by_update l delta) h =
      either-IsOpener _ _ _ h (write_frame-IsOpener _ _ _ _ (get_flags-IsOpener l.ctx h))
  Step-IsOpener a b (by_write l fuel bytes) h =
      either-IsOpener _ _ _ h (write_rounds-IsOpener fuel (length bytes) bytes l h)
  Step-IsOpener a b (by_frame l flags) h = subst IsOpener (sym (receive_flags-state flags l.ctx)) h

  Steps-IsOpener : (a b : Link p) → Steps p a b → IsOpener a.ctx.state → IsOpener b.ctx.state
  Steps-IsOpener a b (start l) h = h
  Steps-IsOpener a b (next {b = m} before step) h =
      Step-IsOpener m b step (Steps-IsOpener a m before h)

  -- yamux_stream_close refuses a channel that this side has opened, with EINVAL, and sends nothing:
  -- whatever functions of yamux/stream.c were called on the channel before, or
  -- libp2p_yamux_channel_send_FIN, and whatever frames came for it, the ACK of the peer among them.
  pub channel_close_refuses :
      (parent : p.State) (id window : ℕ) (l : Link p)
      → Steps p (record { parent = parent; ctx = channel_new id window }) l
      → channel_close p l ≡ (einval, l)
  channel_close_refuses parent id window l steps = close_refused l (Steps-IsOpener _ l steps tt)
