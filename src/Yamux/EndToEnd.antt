-- ===== src/Yamux/EndToEnd.antt =====
-- Two streams of one id, over the two ends of a connection.
use c_libp2p.Base.{ℕ, suc, ◌^◌, ◌≤◌, ◌<◌, ◌≡◌, ◌≢◌, refl, sym, ap, ◌∙◌, List, [], ◌++◌, min}
use c_libp2p.Base.{
  length, take, append_cancel_left, append_assoc, arith, length-take, take_all, false, ◌*◌,
}
use c_libp2p.Base.{subst}
use c_libp2p.Transport.{Transport, Reliable, ok}
use c_libp2p.Yamux.{Header, Session, type_data, initial_window}
use c_libp2p.Yamux.Stream.{StreamContext, sendable, stream_write, stream_read, replenish}
use c_libp2p.Yamux.Frames.{chan_at, frame, Fits, wire_of}
use c_libp2p.Yamux.Write.{stream_write_sends, sendable_bounds}
use c_libp2p.Yamux.Read.{IsReady, window_after, update_for, replenish-Ran}
use c_libp2p.Yamux.Delivery.{stream_read-Ran}

module _ {t u : Transport} (writer : Reliable t) (reader : Reliable u) where
  -- What one end writes, the other end reads. If the bytes that a write on an open stream puts on
  -- the connection are what the peer's stream of the same id finds there, then a read of at least
  -- as many bytes returns exactly the front of the data that the write reported as sent.
  pub stream_read-stream_write :
      (n : t.State) (m : u.State) (s s' : Session) (x y : StreamContext) (buf bytes rest : List ℕ)
      (fuel count : ℕ)
      → s.closed ≡ false
      → x.closed ≡ false
      → sendable x (length buf) ≢ 0
      → x.stream_id < 2 ^ 32
      → IsReady s' y
      → x.stream_id ≡ y.stream_id
      → sendable x (length buf) ≤ count
      → writer.Usable n
      → reader.Usable m
      → writer.sent (stream_write t buf (chan_at n (s, x))).1.conn.net ≡ writer.sent n ++ bytes
      → reader.pending m ≡ bytes ++ rest
      → let k = sendable x (length buf) in
        ((stream_write t buf (chan_at n (s, x))).0 ≡ ok k)
        × ((stream_read u (suc fuel) count (chan_at m (s', y))).0 ≡ ok (take k buf))
        × (reader.pending (stream_read u (suc fuel) count (chan_at m (s', y))).1.conn.net ≡ rest)
  stream_read-stream_write n m s s' x y buf bytes rest fuel count so xo ne small ready same enough
        un um wrote e =
      let k : ℕ = sendable x (length buf) in
      let h : Header = frame type_data 0 x.stream_id k in
      let out = stream_write_sends writer s x buf (writer.pending n) so xo ne un refl in
      let net_of : (stream_write t buf (chan_at n (s, x))).1.conn.net ≡ out.net =
        ap (λ o. o.1.conn.net) out.result in
      let same_bytes : bytes ≡ wire_of h ++ take k buf =
        append_cancel_left (writer.sent n) (sym wrote ∙ ap writer.sent net_of ∙ out.wrote) in
      let len : length (take k buf) ≡ k =
        omega (arith, length-take k buf, sendable_bounds x (length buf)) in
      let fits : Fits h = record {
        current = refl;
        flags16 = omega arith;
        id32 = small;
        length32 = omega (arith, sendable_bounds x (length buf));
      } in
      let back =
        stream_read-Ran reader [] s' y (suc fuel) count h (take k buf) rest ready tt (omega arith)
          fits refl same len (omega arith) um
          (e ∙ ap (λ l. l ++ rest) same_bytes ∙ append_assoc (wire_of h) (take k buf) rest) in
      let whole : take (min count k) (take k buf) ≡ take k buf =
        take_all (min count k) (take k buf) (omega arith) in
      (
        ap (λ o. o.0) out.result,
        ap (λ o. o.0) back.result ∙ ap ok whole,
        ap (λ o. reader.pending o.1.conn.net) back.result ∙ back.left,
      )

  window_after_half :
      (n : ℕ) (x : StreamContext)
      → x.recv_window ≤ initial_window
      → (window_after n x ≤ initial_window) × (initial_window < 2 * window_after n x)
  window_after_half n x h = ground arith

  -- On a reliable stream below, a receive window that is within its bound is so again after a
  -- payload of any size, and more than half of it is then open. It is what the payload leaves of the
  -- window; or, where 128 KiB or more are missing of 256 KiB, the whole window, and then an update
  -- for what was missing, and nothing else, has been sent to the writer.
  pub replenish_bounds :
      (m : u.State) (s : Session) (x : StreamContext) (n : ℕ)
      → x.recv_window ≤ initial_window
      → reader.Usable m
      → let out = (replenish u n (chan_at m (s, x))).1 in
        let w = out.ctx.recv_window in
        (w ≤ initial_window)
        × (initial_window < 2 * w)
        × (w ≡ window_after n x)
        × (reader.sent out.conn.net ≡ reader.sent m ++ update_for n x)
  replenish_bounds m s x n h um =
      let out = replenish-Ran reader s x n h um (refl {a = reader.pending m}) in
      let same = ap (λ o. o.1.ctx.recv_window) out.result in
      let (low, high) =
        subst (λ w. (w ≤ initial_window) × (initial_window < 2 * w)) (sym same)
          (window_after_half n x h) in
      (low, high, same, ap (λ o. reader.sent o.1.conn.net) out.result ∙ out.wrote)
