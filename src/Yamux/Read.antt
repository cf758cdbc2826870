-- ===== src/Yamux/Read.antt =====
-- What yamux_stream_read makes of each kind of frame.
use c_libp2p.Base.{ℕ, ◌+◌, ◌-◌, ◌%◌, ◌^◌, ◌≤◌, ◌<◌, ◌≡◌}
use c_libp2p.Base.{List, [], ◌++◌, min, Option, some, Bool-cases, inl, inr}
use c_libp2p.Base.{length, take, append-nil, arith, not, ◌||◌, ◌==◌, true, false}
use c_libp2p.Base.{Bool, subst, ltb, leb, if◌then◌else◌}
use c_libp2p.Transport.{Transport, Reliable, Res, ok, M}
use c_libp2p.Transport.{recover, read_full}
use c_libp2p.Transport.Run.{Ran-bind, Ran-then, Ran-guard, Ran-pure, Ran-bytes, Ran-recover}
use c_libp2p.Yamux.{Header, Session, Conn, header_bytes, on_net, send_header, read_header}
use c_libp2p.Yamux.{type_window_update, flag_fin}
use c_libp2p.Yamux.{has_flag, window_threshold, initial_window}
use c_libp2p.Yamux.Stream.{StreamContext, on_conn, spend}
use c_libp2p.Yamux.Stream.{increment, replenish, take_payload, read_frame, read_round}
use c_libp2p.Yamux.Frames.{chan_at, RanChan, Fits, wire_of, on_conn-Ran}
use c_libp2p.Yamux.Frames.{send_header-Ran, read_header-Ran, read_bytes-Ran}

-- what a payload of `n` bytes leaves of the receive window, which is not below 0
abbrev pub window_left : ℕ → StreamContext → ℕ
window_left n x = if leb n x.recv_window then x.recv_window - n else 0

-- The receive window after a payload of `n` bytes, and the update that is sent for it: where 128 KiB
-- or more are missing of the window of 256 KiB, it is made whole.
abbrev pub window_after : ℕ → StreamContext → ℕ
window_after n x = if leb 131072 (262144 - window_left n x) then 262144 else window_left n x

abbrev pub update_for : ℕ → StreamContext → List ℕ
update_for n x =
    if leb 131072 (262144 - window_left n x)
    then header_bytes 1 0 x.stream_id (262144 - window_left n x)
    else []

-- The invariant of the receive window.
abbrev pub IsBounded : StreamContext → Type 0
IsBounded x = x.recv_window ≤ initial_window

spend-IsBounded : (n : ℕ) (x : StreamContext) → IsBounded x → IsBounded (spend n x)
spend-IsBounded n x h = ground arith

increment_lem : (x : StreamContext) → IsBounded x → increment x ≡ initial_window - x.recv_window
increment_lem x h = omega arith

refilled :
    (x : StreamContext) → IsBounded x → (x.recv_window + increment x) % 2 ^ 32 ≡ initial_window
refilled x h = omega arith

-- The context after a DATA frame with the payload `bs`, of which the caller takes `count` bytes.
abbrev pub after_payload : ℕ → Header → List ℕ → StreamContext → StreamContext
after_payload count h bs x = record x {
  recv_window = window_after h.length_ x;
  closed = if has_flag h flag_fin then true else x.closed;
  read_buffer = bs;
  read_buffer_pos = min count h.length_;
}

-- The stream can go on to the next frame: it is open and its buffer is used up.
pub record IsReady (s : Session) (x : StreamContext) : Type 0 where
  pub session_open : s.closed ≡ false
  pub stream_open : x.closed ≡ false
  pub used_up : length x.read_buffer ≤ x.read_buffer_pos
  pub bounded : IsBounded x

pub window_after_bounded :
    (n : ℕ) (x : StreamContext) → IsBounded x → window_after n x ≤ initial_window
window_after_bounded n x h = ground arith

not_zero : (n : ℕ) → 0 < n → (n == 0) ≡ false
not_zero n h = ground arith

used_up_test :
    (x : StreamContext)
    → length x.read_buffer ≤ x.read_buffer_pos
    → ltb x.read_buffer_pos (length x.read_buffer) ≡ false
used_up_test x h = ground arith

open_test : (a b : Bool) → a ≡ false → b ≡ false → not (a || b) ≡ true
open_test a b p q = ground arith

module _ {t : Transport} (rel : Reliable t) where
  open rel use {pending, sent, Usable}

  pub replenish-Ran :
      {n : t.State} (s : Session) (x : StreamContext) (k : ℕ) {rest : List ℕ}
      → IsBounded x
      → Usable n
      → pending n ≡ rest
      → RanChan rel n
          (ok tt)
          (s, record x { recv_window = window_after k x })
          rest
          (update_for k x)
          (replenish t k (chan_at n (s, x)))
  unfolding replenish
  replenish-Ran {n} s x k {rest} h u e =
      let y : StreamContext = spend k x in
      let hy : IsBounded y = spend-IsBounded k x h in
      elim (Bool-cases (leb window_threshold (initial_window - y.recv_window))) [
        | inl more ↦
            let inc : ℕ = initial_window - y.recv_window in
            let send : M (Conn t) (Unit {0}) = send_header t type_window_update 0 y.stream_id inc in
            rw (increment_lem y hy, more)
              (Ran-bytes rel chan_at
                (append-nil (header_bytes type_window_update 0 y.stream_id inc))
                (Ran-bind rel chan_at (recover (on_conn t send)) _
                  (Ran-recover rel chan_at (on_conn t send) {l = (s, y)} (
                    on_conn-Ran rel send {s = s} y
                      (send_header-Ran rel s type_window_update 0 y.stream_id inc u e)))
                  λ n' u' left.
                    subst
                      (λ w.
                        RanChan rel n' (ok tt) (s, record y { recv_window = w }) rest []
                          (
                            ok tt,
                            chan_at n' (
                              s,
                              record y { recv_window = (y.recv_window + increment y) % 2 ^ 32 },
                            ),
                          ))
                      (refilled y hy) (Ran-pure rel chan_at u' left)))
        | inr less ↦ rw (increment_lem y hy, less) (Ran-pure rel chan_at u e)
      ]

  pub take_payload-Ran :
      {n : t.State} (s : Session) (x : StreamContext) (count : ℕ) (h : Header) (bs rest : List ℕ)
      → IsBounded x
      → length bs ≡ h.length_
      → 0 < h.length_
      → Usable n
      → pending n ≡ bs ++ rest
      → RanChan rel n
          (ok (some (take (min count h.length_) bs)))
          (s, after_payload count h bs x)
          rest
          (update_for h.length_ x)
          (take_payload t count h (chan_at n (s, x)))
  unfolding take_payload
  take_payload-Ran {n} s x count h bs rest hx len pos u e =
      let y : StreamContext = record x { read_buffer = bs; read_buffer_pos = 0 } in
      let z : StreamContext = record y { recv_window = window_after h.length_ x } in
      rw (not_zero h.length_ pos) (
        Ran-then rel chan_at (on_conn t (on_net t (read_full t h.length_))) _
          (on_conn-Ran rel (on_net t (read_full t h.length_)) x
            (read_bytes-Ran rel s bs rest h.length_ len u e))
          λ n1 u1 left1. Ran-bytes rel chan_at (append-nil (update_for h.length_ x)) (
            Ran-bind rel chan_at (replenish t h.length_) _ (replenish-Ran s y h.length_ hx u1 left1)
              λ n2 u2 left2. elim (Bool-cases (has_flag h flag_fin)) [
                | inl fin ↦ rw fin (Ran-pure rel chan_at u2 left2)
                | inr more ↦ rw more (Ran-pure rel chan_at u2 left2)
              ]))

  -- One round, up to its frame.
  pub read_round-Ran :
      {n : t.State} {s : Session} {x : StreamContext} (count : ℕ) (h : Header) (later : List ℕ)
      {r : Res (Option (List ℕ))} {l : Session × StreamContext} {rest bytes : List ℕ}
      → IsReady s x
      → Fits h
      → Usable n
      → pending n ≡ wire_of h ++ later
      → ((n' : t.State)
          → Usable n'
          → pending n' ≡ later
          → RanChan rel n' r l rest bytes (read_frame t count h (chan_at n' (s, x))))
      → RanChan rel n r l rest bytes (read_round t count (chan_at n (s, x)))
  unfolding read_round
  read_round-Ran {n} {s} {x} count h later ready f u e k =
      Ran-guard rel chan_at _ (open_test s.closed x.closed ready.session_open ready.stream_open) (
        rw (used_up_test x ready.used_up) (
          Ran-then rel chan_at (on_conn t (read_header t)) _
            (on_conn-Ran rel (read_header t) x (read_header-Ran rel s h later f u e)) k))
