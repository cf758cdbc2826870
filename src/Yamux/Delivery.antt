-- ===== src/Yamux/Delivery.antt =====
-- yamux_stream_read as a whole: the frames that it passes over, and the data that it delivers.
use c_libp2p.Base.{◌+◌, ◌%◌, ◌^◌, ℕ, zero, suc, ◌<◌, ◌≡◌, refl, sym, ◌∙◌}
use c_libp2p.Base.{List, [], ◌∷◌, ◌++◌, min, none, some, Bool-cases, inl, inr, ◌⊎◌, All}
use c_libp2p.Base.{length, take, append-nil, append_assoc, arith, not, ◌||◌, ◌&&◌, ◌==◌}
use c_libp2p.Base.{true, false, if◌then◌else◌}
use c_libp2p.Transport.{Transport, Reliable, ok, M, pure}
use c_libp2p.Transport.Run.{Ran-bind, Ran-pure, Ran-bytes, Ran-again}
use c_libp2p.Transport.Run.{Ran-return}
use c_libp2p.Yamux.{Header, Session, Conn, header_bytes, send_header}
use c_libp2p.Yamux.{type_data, type_window_update, type_ping, type_go_away, flag_ack}
use c_libp2p.Yamux.{has_flag, handle_control_frame}
use c_libp2p.Yamux.Stream.{StreamContext, on_conn, read_frame}
use c_libp2p.Yamux.Stream.{read_round, stream_read}
use c_libp2p.Yamux.Frames.{chan_at, RanChan, Fits, wire_of, on_conn-Ran, send_header-Ran}
use c_libp2p.Yamux.Read.{IsReady, after_payload, update_for, take_payload-Ran}
use c_libp2p.Yamux.Read.{read_round-Ran}

-- A frame that a reader passes over: a ping, or a window update.
abbrev pub IsQuiet : Header → Type 0
IsQuiet h = Fits h × ((h.type ≡ 2) ⊎ (h.type ≡ 1))

-- What such a frame does to the stream, and the answer to it: an update of its own stream adds to the
-- window, a number of 32 bits, and may be the acknowledgement.
abbrev pub effect : Header → StreamContext → StreamContext
effect h x =
    if h.type == 1 && h.stream_id == x.stream_id
    then record x {
      send_window = (x.send_window + h.length_) % 2 ^ 32;
      syn_ack_received = x.syn_ack_received || has_flag h 2;
    }
    else x

abbrev pub answer : Header → List ℕ
answer h = if h.type == 2 && not (has_flag h 2) then header_bytes 2 2 0 h.length_ else []

abbrev pub effects : List Header → StreamContext → StreamContext
effects [] x = x
effects (h ∷ hs) x = effects hs (effect h x)

abbrev pub answers : List Header → List ℕ
answers [] = []
answers (h ∷ hs) = answer h ++ answers hs

abbrev pub wires : List Header → List ℕ
wires [] = []
wires (h ∷ hs) = wire_of h ++ wires hs

version_test : (h : Header) → Fits h → (h.version == 0) ≡ true
version_test h f = rw f.current

effect-IsReady :
    (h : Header) (s : Session) (x : StreamContext) → IsReady s x → IsReady s (effect h x)
effect-IsReady h s x r = ground arith

effects-IsReady :
    (hs : List Header) (s : Session) (x : StreamContext) → IsReady s x → IsReady s (effects hs x)
effects-IsReady [] s x r = r
effects-IsReady (h ∷ hs) s x r = effects-IsReady hs s (effect h x) (effect-IsReady h s x r)

stream_id-effects : (hs : List Header) (x : StreamContext) → (effects hs x).stream_id ≡ x.stream_id
stream_id-effects [] x = refl
stream_id-effects (h ∷ hs) x = stream_id-effects hs (effect h x) ∙ ground arith

module _ {t : Transport} (rel : Reliable t) where
  open rel use {pending, sent, Usable}

  read_frame_quiet :
      {n : t.State} (s : Session) (x : StreamContext) (count : ℕ) (h : Header) {rest : List ℕ}
      → IsQuiet h
      → Usable n
      → pending n ≡ rest
      → RanChan rel n
          (ok none)
          (s, effect h x)
          rest
          (answer h)
          (read_frame t count h (chan_at n (s, x)))
  unfolding read_frame handle_control_frame
  read_frame_quiet {n} s x count h (f, inl ping) u e = elim (Bool-cases (has_flag h flag_ack)) [
    | inl pong ↦ rw (version_test h f, ping, pong) (Ran-pure rel chan_at u e)
    | inr asks ↦
        let send : M (Conn t) (Unit {0}) = send_header t type_ping flag_ack 0 h.length_ in
        rw (version_test h f, ping, asks)
          (Ran-bytes rel chan_at (append-nil (header_bytes type_ping flag_ack 0 h.length_)) (
            Ran-bind rel chan_at (on_conn t send) (λ _. pure none)
              (on_conn-Ran rel send x (send_header-Ran rel s type_ping flag_ack 0 h.length_ u e))
              λ n' u' left. Ran-pure rel chan_at u' left))
  ]
  read_frame_quiet {n} s x count h (f, inr update) u e =
      elim (Bool-cases (h.stream_id == x.stream_id)) [
        | inl own ↦ rw (version_test h f, update, own) (Ran-pure rel chan_at u e)
        | inr other ↦ rw (version_test h f, update, other) (Ran-pure rel chan_at u e)
      ]

  read_frame_data :
      {n : t.State} (s : Session) (x : StreamContext) (count : ℕ) (h : Header) (bs rest : List ℕ)
      → IsReady s x
      → Fits h
      → h.type ≡ type_data
      → h.stream_id ≡ x.stream_id
      → length bs ≡ h.length_
      → 0 < h.length_
      → Usable n
      → pending n ≡ bs ++ rest
      → RanChan rel n
          (ok (some (take (min count h.length_) bs)))
          (s, after_payload count h bs x)
          rest
          (update_for h.length_ x)
          (read_frame t count h (chan_at n (s, x)))
  unfolding read_frame
  read_frame_data {n} s x count h bs rest ready f is_data own len pos u e =
      let not_control : (h.type == type_ping || h.type == type_go_away) ≡ false = ground arith in
      let not_update : (h.type == type_window_update) ≡ false = ground arith in
      let data_test : not (h.type == type_data) ≡ false = ground arith in
      let same : not (h.stream_id == x.stream_id) ≡ false = ground arith in
      rw (version_test h f, not_control, not_update, data_test, same)
        (take_payload-Ran rel s x count h bs rest ready.bounded len pos u e)

  -- A reader passes over pings and window updates, answering the pings and adding the updates of
  -- its own stream to its send window, modulo 2^32, and then returns the payload of the next DATA
  -- frame of its stream, as much as was asked for; the rest of the payload stays in its buffer. The
  -- payload is taken off the receive window, down to 0 at most; where 128 KiB or more are then
  -- missing of 256 KiB, an update is sent for them and the window is whole again.
  pub stream_read-Ran :
      (hs : List Header) {n : t.State} (s : Session) (x : StreamContext) (fuel count : ℕ)
      (h : Header) (bs rest : List ℕ)
      → IsReady s x
      → All IsQuiet hs
      → length hs < fuel
      → Fits h
      → h.type ≡ 0
      → h.stream_id ≡ x.stream_id
      → length bs ≡ h.length_
      → 0 < h.length_
      → Usable n
      → pending n ≡ wires hs ++ (wire_of h ++ (bs ++ rest))
      → let y = effects hs x in
        RanChan rel n
          (ok (take (min count h.length_) bs))
          (s, after_payload count h bs y)
          rest
          (answers hs ++ update_for h.length_ y)
          (stream_read t fuel count (chan_at n (s, x)))
  unfolding stream_read
  stream_read-Ran hs s x zero count h bs rest ready qs fuel f is_data own len pos u e =
      absurd (omega arith)
  stream_read-Ran [] s x (suc k) count h bs rest ready qs fuel f is_data own len pos u e =
      Ran-return rel chan_at k (read_round t count) (
        read_round-Ran rel count h (bs ++ rest) ready f u e
          λ n' u' left. read_frame_data s x count h bs rest ready f is_data own len pos u' left)
  stream_read-Ran (q ∷ hs) s x (suc k) count h bs rest ready (quiet, qs) fuel f is_data own len pos
        u e =
      Ran-bytes rel chan_at (sym (append_assoc (answer q) (answers hs) _)) (
        Ran-again rel chan_at k (read_round t count)
          (read_round-Ran rel count q _ ready quiet.0 u (e ∙ append_assoc (wire_of q) (wires hs) _)
            λ n' u' left. read_frame_quiet s x count q quiet u' left)
          λ n' u' left.
            stream_read-Ran hs s (effect q x) k count h bs rest (effect-IsReady q s x ready) qs
              (omega arith) f is_data (own ∙ sym (stream_id-effects (q ∷ []) x)) len pos u' left)
