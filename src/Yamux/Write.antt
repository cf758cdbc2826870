-- ===== src/Yamux/Write.antt =====
-- What yamux_stream_write puts on the wire.
use c_libp2p.Base.{ℕ, ◌-◌, ◌≤◌, ◌≡◌, ◌≢◌, refl, ap, min, ◌∷◌, ◌<◌, List, [], ◌++◌}
use c_libp2p.Base.{length, take, append-nil, arith, length-take, not, ◌||◌, ◌==◌, true, false, Bool}
use c_libp2p.Base.{◌⊎◌, inl, inr, Bool-cases}
use c_libp2p.Transport.{Transport, Reliable, ok, failed, write_full}
use c_libp2p.Transport.Triple.{Did-write}
use c_libp2p.Transport.Run.{Ran-bind, Ran-guard, Ran-pure, Ran-bytes}
use c_libp2p.Yamux.{Session, header_bytes, on_net, send_header, type_data, max_payload}
use c_libp2p.Yamux.Stream.{StreamContext, Chan, is_closed, sendable, on_conn}
use c_libp2p.Yamux.Stream.{stream_write}
use c_libp2p.Yamux.Frames.{chan_at, RanChan, on_conn-Ran, on_net-Ran, send_header-Ran}

open_test : (a b : Bool) → a ≡ false → b ≡ false → not (a || b) ≡ true
open_test a b p q = ground arith

count_test : (k : ℕ) → k ≢ 0 → not (k == 0) ≡ true
count_test k h = ground arith

empty_test : (k : ℕ) → k ≡ 0 → not (k == 0) ≡ false
empty_test k h = ground arith

-- No more is sent than there is data, than a frame may hold, or than the peer's window allows.
pub sendable_bounds :
    (x : StreamContext) (count : ℕ)
    → (sendable x count ≤ count)
      × (sendable x count ≤ max_payload)
      × (sendable x count ≤ x.send_window)
sendable_bounds x count = omega arith

take-ne-nil : (k : ℕ) (bs : List ℕ) → k ≢ 0 → k ≤ length bs → take k bs ≢ []
take-ne-nil k bs ne le e = ne (omega (arith, length-take k bs, ap length e))

-- with some data and some window, something is sent
pub sendable-ne :
    (x : StreamContext) (buf : List ℕ) → buf ≢ [] → 0 < x.send_window → sendable x (length buf) ≢ 0
sendable-ne x [] ne window = absurd (ne refl)
sendable-ne x (b ∷ buf) ne window = λ e. omega arith

-- the frame that carries `bs` on a stream
abbrev pub data_frame : ℕ → List ℕ → List ℕ
data_frame stream_id bs = header_bytes type_data 0 stream_id (length bs) ++ bs

module _ {t : Transport} (rel : Reliable t) where
  open rel use {pending, sent, Usable}

  pub stream_write_sends :
      {n : t.State} (s : Session) (x : StreamContext) (buf rest : List ℕ)
      → s.closed ≡ false
      → x.closed ≡ false
      → sendable x (length buf) ≢ 0
      → Usable n
      → pending n ≡ rest
      → let k = min (min (length buf) 65535) x.send_window in
        RanChan rel n
          (ok k)
          (s, record x { send_window = x.send_window - k })
          rest
          (header_bytes type_data 0 x.stream_id k ++ take k buf)
          (stream_write t buf (chan_at n (s, x)))
  unfolding stream_write
  stream_write_sends {n} s x buf rest so xo ne u e =
      let k : ℕ = sendable x (length buf) in
      Ran-guard rel chan_at _ (open_test s.closed x.closed so xo) (
        Ran-guard rel chan_at _ (count_test k ne) (
          Ran-bind rel chan_at (on_conn t (send_header t type_data 0 x.stream_id k)) _
            (on_conn-Ran rel (send_header t type_data 0 x.stream_id k) x
              (send_header-Ran rel s type_data 0 x.stream_id k u e))
            λ n1 u1 left1. Ran-bytes rel chan_at (append-nil (take k buf)) (
              Ran-bind rel chan_at (on_conn t (on_net t (write_full t (take k buf)))) _
                (on_conn-Ran rel (on_net t (write_full t (take k buf))) x (
                  on_net-Ran rel (write_full t (take k buf)) s (
                    Did-write rel n1 (take k buf)
                      (take-ne-nil k buf ne (sendable_bounds x (length buf)).0) u1 left1)))
                λ n2 u2 left2. Ran-pure rel chan_at u2 left2)))

  -- On a reliable stream below, a write of some data on an open stream whose window is not used up
  -- sends one DATA frame: the longest front of the data with 65535 bytes at most that the peer's
  -- window allows. It returns that number of bytes, and takes it off the window.
  pub stream_write-Ran :
      {n : t.State} (s : Session) (x : StreamContext) (buf rest : List ℕ)
      → s.closed ≡ false
      → x.closed ≡ false
      → buf ≢ []
      → 0 < x.send_window
      → Usable n
      → pending n ≡ rest
      → let k = min (min (length buf) 65535) x.send_window in
        RanChan rel n
          (ok k)
          (s, record x { send_window = x.send_window - k })
          rest
          (header_bytes 0 0 x.stream_id k ++ take k buf)
          (stream_write t buf (chan_at n (s, x)))
  stream_write-Ran s x buf rest so xo some_data some_window u e =
      stream_write_sends s x buf rest so xo (sendable-ne x buf some_data some_window) u e

-- On any stream below, a write on a closed stream or session, or with no window left, fails and
-- does nothing at all.
pub stream_write_refuses :
    (t : Transport) (c : Chan t) (buf : List ℕ)
    → (is_closed t c ≡ true) ⊎ (sendable c.ctx (length buf) ≡ 0)
    → stream_write t buf c ≡ (failed, c)
unfolding stream_write
stream_write_refuses t c buf (inl shut) = rw shut
stream_write_refuses t c buf (inr empty) = elim (Bool-cases (is_closed t c)) [
  | inl shut ↦ rw shut
  | inr not_shut ↦ rw (not_shut, empty_test (sendable c.ctx (length buf)) empty)
]
