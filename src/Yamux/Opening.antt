-- ===== src/Yamux/Opening.antt =====
-- yamux_stream_open as a whole: the frames that come before the ACK it waits for.
use c_libp2p.Base.{ℕ, zero, suc, ◌+◌, ◌%◌, ◌^◌, ◌<◌, ◌≡◌, ◌≢◌, ap, ◌∙◌, refl, sym, map, Bool}
use c_libp2p.Base.{List, [], ◌∷◌, ◌++◌, none, some, Bool-cases, inl, inr, length, All}
use c_libp2p.Base.{append-nil, append_assoc, arith, not, ◌||◌, ◌&&◌, ◌==◌, true, false}
use c_libp2p.Base.{if◌then◌else◌, ltb}
use c_libp2p.Transport.{Transport, Reliable, ok, M, ◌>>◌, pure, forever}
use c_libp2p.Transport.{attempt}
use c_libp2p.Transport.Run.{Ran-bind, Ran-then, Ran-guard, Ran-pure, Ran-bytes, Ran-again}
use c_libp2p.Transport.Run.{Ran-return, Ran-attempt}
use c_libp2p.Yamux.{Pending, Header, Session, Conn, header_bytes, send_header, on_session}
use c_libp2p.Yamux.{read_header, has_flag, pending_exists}
use c_libp2p.Yamux.{type_data, type_window_update, type_ping, type_go_away, flag_ack, flag_syn}
use c_libp2p.Yamux.Stream.{StreamContext, Chan, new_context, on_conn, on_ctx}
use c_libp2p.Yamux.Open.{stream_open, open_round, queue_syn, pending_add}
use c_libp2p.Yamux.Open.{with_context, map_res}
use c_libp2p.Yamux.Frames.{conn_at, chan_at, RanConn, RanChan, Fits, wire_of, on_conn-Ran}
use c_libp2p.Yamux.Frames.{send_header-Ran, read_header-Ran}

-- the session after `ping` or `open` has taken a number
abbrev pub ping_taken : Session → Session
ping_taken s = record s { ping_seq = (s.ping_seq + 1) % 2 ^ 32 }

abbrev pub id_taken : Session → Session
id_taken s = record s { next_stream_id = (s.next_stream_id + 2) % 2 ^ 32 }

-- an id among others
abbrev pub elem : ℕ → List ℕ → Bool
elem id [] = false
elem id (i ∷ ids) = i == id || elem id ids

-- A frame with SYN for a stream that is not `own`, on a window update: what the session queues for
-- it, and the answer.
abbrev pub IsInbound : ℕ → Header → Type 0
IsInbound own h = Fits h × (h.type ≡ 1) × (has_flag h 1 ≡ true) × (h.stream_id ≢ own)

abbrev pub waits : ℕ → List Pending → Bool
waits id ps = elem id (map (λ (p : Pending). p.stream_id) ps)

abbrev pub queued : Header → Session → Session
queued h s = if waits h.stream_id s.pending_inbound then s else record s {
  pending_inbound = record { stream_id = h.stream_id; payload = [] } ∷ s.pending_inbound;
}

abbrev pub syn_answer : Header → Session → List ℕ
syn_answer h s = if waits h.stream_id s.pending_inbound then [] else header_bytes 1 2 h.stream_id 0

-- the code's search is for an id among those that wait
pub pending_exists-waits : (id : ℕ) (ps : List Pending) → pending_exists id ps ≡ waits id ps
pending_exists-waits id [] = refl
pending_exists-waits id (p ∷ ps) = ap (λ b. p.stream_id == id || b) (pending_exists-waits id ps)

abbrev pub queued_all : List Header → Session → Session
queued_all [] s = s
queued_all (h ∷ hs) s = queued_all hs (queued h s)

abbrev pub syn_answers : List Header → Session → List ℕ
syn_answers [] s = []
syn_answers (h ∷ hs) s = syn_answer h s ++ syn_answers hs (queued h s)

abbrev pub syn_wires : List Header → List ℕ
syn_wires [] = []
syn_wires (h ∷ hs) = wire_of h ++ syn_wires hs

module _ {t : Transport} (rel : Reliable t) where
  open rel use {pending, sent, Usable}

  queue_syn-Ran :
      {n : t.State} (s : Session) (h : Header) {rest : List ℕ}
      → h.type ≡ type_window_update
      → Usable n
      → pending n ≡ rest
      → RanConn rel n (ok tt) (queued h s) rest (syn_answer h s) (queue_syn t h (conn_at n s))
  unfolding queue_syn
  queue_syn-Ran {n} s h update u e =
      let no_payload : (h.type == type_data && ltb 0 h.length_) ≡ false = ground arith in
      let send : M (Conn t) (Unit {0}) = send_header t type_window_update flag_ack h.stream_id 0 in
      elim (Bool-cases (pending_exists h.stream_id s.pending_inbound)) [
        | inl old ↦
            rw (sym (pending_exists-waits h.stream_id s.pending_inbound), old)
              (Ran-pure rel conn_at u e)
        | inr new ↦
            rw (sym (pending_exists-waits h.stream_id s.pending_inbound), new, no_payload)
              (Ran-bytes rel conn_at
                (append-nil (header_bytes type_window_update flag_ack h.stream_id 0))
                (Ran-bind rel conn_at (attempt send)
                  (λ _. on_session t (pending_add h.stream_id []))
                  (Ran-attempt rel conn_at send {l = s}
                    (send_header-Ran rel s type_window_update flag_ack h.stream_id 0 u e))
                  λ n' u' left. Ran-pure rel conn_at u' left))
      ]

  open_round_syn :
      {n : t.State} (s : Session) (x : StreamContext) (h : Header) {rest : List ℕ}
      → IsInbound x.stream_id h
      → Usable n
      → pending n ≡ wire_of h ++ rest
      → RanChan rel n
          (ok none)
          (queued h s, x)
          rest
          (syn_answer h s)
          (open_round t (chan_at n (s, x)))
  unfolding open_round
  open_round_syn {n} s x h {rest} (f, update, syn, other) u e =
      let not_control : (h.type == type_ping || h.type == type_go_away) ≡ false = ground arith in
      let not_own : (h.type == type_window_update && h.stream_id == x.stream_id) ≡ false =
        ground arith in
      let opens : (h.type == type_window_update || h.type == type_data) ≡ true = ground arith in
      Ran-then rel chan_at (on_conn t (read_header t)) _
        (on_conn-Ran rel (read_header t) x (read_header-Ran rel s h rest f u e))
        λ n' u' left.
          rw (not_control, not_own, opens, syn)
            (Ran-bytes rel chan_at (append-nil (syn_answer h s)) (
              Ran-bind rel chan_at (on_conn t (queue_syn t h)) (λ _. pure none)
                (on_conn-Ran rel (queue_syn t h) x (queue_syn-Ran s h update u' left))
                λ n2 u2 left2. Ran-pure rel chan_at u2 left2))

  open_round_ack :
      {n : t.State} (s : Session) (x : StreamContext) (h : Header) {rest : List ℕ}
      → Fits h
      → h.type ≡ type_window_update
      → h.stream_id ≡ x.stream_id
      → has_flag h flag_ack ≡ true
      → Usable n
      → pending n ≡ wire_of h ++ rest
      → RanChan rel n
          (ok (some tt))
          (s, record x { send_window = (x.send_window + h.length_) % 2 ^ 32 })
          rest
          []
          (open_round t (chan_at n (s, x)))
  unfolding open_round
  open_round_ack {n} s x h {rest} f update own ack u e =
      let not_control : (h.type == type_ping || h.type == type_go_away) ≡ false = ground arith in
      let is_own : (h.type == type_window_update && h.stream_id == x.stream_id) ≡ true =
        ground arith in
      Ran-then rel chan_at (on_conn t (read_header t)) _
        (on_conn-Ran rel (read_header t) x (read_header-Ran rel s h rest f u e))
        λ n' u' left. rw (not_control, is_own, ack) (Ran-pure rel chan_at u' left)

  open_loop :
      (hs : List Header) {n : t.State} (s : Session) (x : StreamContext) (fuel : ℕ) (h : Header)
      (rest : List ℕ)
      → All (IsInbound x.stream_id) hs
      → length hs < fuel
      → Fits h
      → h.type ≡ type_window_update
      → h.stream_id ≡ x.stream_id
      → has_flag h flag_ack ≡ true
      → Usable n
      → pending n ≡ syn_wires hs ++ (wire_of h ++ rest)
      → RanChan rel n
          (ok tt)
          (queued_all hs s, record x { send_window = (x.send_window + h.length_) % 2 ^ 32 })
          rest
          (syn_answers hs s)
          (forever fuel (open_round t) (chan_at n (s, x)))
  open_loop hs s x zero h rest qs fuel f update own ack u e = absurd (omega arith)
  open_loop [] s x (suc k) h rest qs fuel f update own ack u e =
      Ran-return rel chan_at k (open_round t) (open_round_ack s x h f update own ack u e)
  open_loop (q ∷ hs) s x (suc k) h rest (inbound, qs) fuel f update own ack u e =
      Ran-again rel chan_at k (open_round t)
        (open_round_syn s x q inbound u (e ∙ append_assoc (wire_of q) (syn_wires hs) _))
        λ n' u' left. open_loop hs (queued q s) x k h rest qs (omega arith) f update own ack u' left

  with_context-Ran :
      {A : Type 0} (m : M (Chan t) A) {n : t.State} {s s' : Session} (x : StreamContext)
      {x' : StreamContext} {a : A} {rest bytes : List ℕ}
      → RanChan rel n (ok a) (s', x') rest bytes (m (chan_at n (s, x)))
      → RanConn rel n (ok x') s' rest bytes (with_context t x m (conn_at n s))
  with_context-Ran m x d = record {
    net = d.net;
    result = ap (λ o. (map_res (λ a. o.1.ctx) o.0, o.1.conn)) d.result;
    left = d.left;
    wrote = d.wrote;
    usable = d.usable;
  }

  -- Opening a stream sends a SYN for the next free id, and ends with the ACK for that id: the send
  -- window is the initial 256 KiB and the credit of the ACK, modulo 2^32. The SYNs of other streams
  -- that come first, on window updates, are put before the queue of the session without a payload,
  -- and answered by an ACK, but for those whose id the queue has already: these change nothing.
  pub stream_open-Ran :
      (hs : List Header) {n : t.State} (s : Session) (fuel : ℕ) (h : Header) (rest : List ℕ)
      → s.closed ≡ false
      → All (IsInbound s.next_stream_id) hs
      → length hs < fuel
      → Fits h
      → h.type ≡ 1
      → h.stream_id ≡ s.next_stream_id
      → has_flag h 2 ≡ true
      → Usable n
      → pending n ≡ syn_wires hs ++ (wire_of h ++ rest)
      → RanConn rel n
          (ok (record {
            stream_id = s.next_stream_id;
            send_window = (262144 + h.length_) % 2 ^ 32;
            recv_window = 262144;
            syn_ack_received = true;
            closed = false;
            read_buffer = [];
            read_buffer_pos = 0;
          }))
          (queued_all hs (id_taken s))
          rest
          (header_bytes 1 1 s.next_stream_id 0 ++ syn_answers hs (id_taken s))
          (stream_open t fuel (conn_at n s))
  unfolding stream_open
  stream_open-Ran hs s fuel h rest so qs enough f update own ack u e =
      let id : ℕ = s.next_stream_id in
      let x : StreamContext = new_context id false in
      Ran-guard rel conn_at _ (ap not so) (
        Ran-bind rel conn_at (send_header t type_window_update flag_syn id 0) _ {l = id_taken s}
          (send_header-Ran rel (id_taken s) type_window_update flag_syn id 0 u e)
          λ n1 u1 left1.
            with_context-Ran
              (forever fuel (open_round t) >> on_ctx t (λ x. record x { syn_ack_received = true }))
              x
              (Ran-bytes rel chan_at (append-nil (syn_answers hs (id_taken s))) (
                Ran-bind rel chan_at (forever fuel (open_round t)) _
                  (open_loop hs (id_taken s) x fuel h rest qs enough f update own ack u1 left1)
                  λ n2 u2 left2. Ran-pure rel chan_at u2 left2)))
