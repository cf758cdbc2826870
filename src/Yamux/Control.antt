-- ===== src/Yamux/Control.antt =====
-- The loops of a session, and the frames that they take apart: yamux_discard_payload, and the
-- rounds of `open`, `accept` and `ping`.
use c_libp2p.Base.{ℕ, zero, suc, ◌-◌, ◌≤◌, ◌≡◌, sym, ap, ◌∙◌, min}
use c_libp2p.Base.{List, [], ◌∷◌, ◌++◌, none, Bool-cases, inl, inr, length}
use c_libp2p.Base.{take, drop, append_assoc, arith, ◌||◌, ◌==◌, false}
use c_libp2p.Base.{take-append-drop, length-take, length-drop}
use c_libp2p.Transport.{Transport, Reliable, ok, pure}
use c_libp2p.Transport.{read_full}
use c_libp2p.Transport.Run.{Ran-then, Ran-pure}
use c_libp2p.Yamux.{Header, Session, on_net, discard_rounds}
use c_libp2p.Yamux.{discard_payload, read_header, handle_control_frame, has_flag}
use c_libp2p.Yamux.{type_data, type_window_update, type_ping, type_go_away, flag_syn}
use c_libp2p.Yamux.Open.{ping_round, wait_round}
use c_libp2p.Yamux.Frames.{conn_at, RanConn, Fits, wire_of, read_bytes-Ran}
use c_libp2p.Yamux.Frames.{read_header-Ran}

module _ {t : Transport} (rel : Reliable t) where
  open rel use {pending, sent, Usable}

  discard_rounds-Ran :
      (fuel : ℕ) {n : t.State} (s : Session) (bs rest : List ℕ) (k : ℕ)
      → k ≤ fuel
      → length bs ≡ k
      → Usable n
      → pending n ≡ bs ++ rest
      → RanConn rel n (ok tt) s rest [] (discard_rounds t fuel k (conn_at n s))
  unfolding discard_rounds
  discard_rounds-Ran fuel s [] rest zero h len u e = Ran-pure rel conn_at u e
  discard_rounds-Ran fuel s (b ∷ bs) rest zero h len u e = absurd (omega arith)
  discard_rounds-Ran zero s bs rest (suc k) h len u e = absurd (omega arith)
  discard_rounds-Ran (suc fuel) s bs rest (suc k) h len u e =
      let chunk : ℕ = min 1024 (suc k) in
      Ran-then rel conn_at (on_net t (read_full t chunk)) _
        (read_bytes-Ran rel s (take chunk bs) (drop chunk bs ++ rest) chunk
          (omega (arith, length-take chunk bs)) u
          (e
            ∙ ap (λ l. l ++ rest) (sym (take-append-drop chunk bs))
            ∙ append_assoc (take chunk bs) (drop chunk bs) rest))
        λ n' u' left.
          discard_rounds-Ran fuel s (drop chunk bs) rest (suc k - chunk) (omega arith)
            (omega (arith, length-drop chunk bs)) u' left

  -- A payload is dropped whole, and what follows it is left.
  pub discard_payload-Ran :
      {n : t.State} (s : Session) (bs rest : List ℕ) (k : ℕ)
      → length bs ≡ k
      → Usable n
      → pending n ≡ bs ++ rest
      → RanConn rel n (ok tt) s rest [] (discard_payload t k (conn_at n s))
  unfolding discard_payload
  discard_payload-Ran s bs rest k len u e = discard_rounds-Ran k s bs rest k (omega arith) len u e

  -- A round of `ping` or of `accept` on a window update that opens no stream. The frame has no
  -- payload, its length is a number of bytes of credit; yet as many bytes of the frames behind it
  -- are read and dropped.
  pub update_eats :
      {n : t.State} (s : Session) (h : Header) (value : ℕ) (bs rest : List ℕ)
      → Fits h
      → h.type ≡ type_window_update
      → has_flag h flag_syn ≡ false
      → length bs ≡ h.length_
      → Usable n
      → pending n ≡ wire_of h ++ (bs ++ rest)
      → RanConn rel n (ok none) s rest [] (ping_round t value (conn_at n s))
        × RanConn rel n (ok none) s rest [] (wait_round t (conn_at n s))
  unfolding ping_round wait_round handle_control_frame
  update_eats {n} s h value bs rest f update no_syn len u e =
      let not_ping : (h.type == type_ping) ≡ false = ground arith in
      let not_away : (h.type == type_go_away) ≡ false = ground arith in
      (
        Ran-then rel conn_at (read_header t) _ (read_header-Ran rel s h (bs ++ rest) f u e)
            λ n' u' left.
              rw (not_ping, not_away)
                (Ran-then rel conn_at (discard_payload t h.length_) (λ _. pure none)
                  (discard_payload-Ran s bs rest h.length_ len u' left)
                  λ n2 u2 left2. Ran-pure rel conn_at u2 left2),
        Ran-then rel conn_at (read_header t) _ (read_header-Ran rel s h (bs ++ rest) f u e)
            λ n' u' left.
              rw (not_ping, not_away, no_syn)
                (elim (Bool-cases (h.type == type_window_update || h.type == type_data)) [
                  | inl some_type ↦ rw some_type (
                      Ran-then rel conn_at (discard_payload t h.length_) (λ _. pure none)
                        (discard_payload-Ran s bs rest h.length_ len u' left)
                        λ n2 u2 left2. Ran-pure rel conn_at u2 left2)
                  | inr no_type ↦ rw no_type (
                      Ran-then rel conn_at (discard_payload t h.length_) (λ _. pure none)
                        (discard_payload-Ran s bs rest h.length_ len u' left)
                        λ n2 u2 left2. Ran-pure rel conn_at u2 left2)
                ]),
      )
