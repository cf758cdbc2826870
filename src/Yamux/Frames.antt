-- ===== src/Yamux/Frames.antt =====
-- Frame headers on a reliable stream, and what carries a run of a session over to a stream of it.
use c_libp2p.Base.{ℕ, ◌^◌, ◌<◌, ◌≡◌, refl, sym, ap, subst, List, [], ◌++◌, length}
use c_libp2p.Base.{from_be16-be16, from_be32-be32}
use c_libp2p.Transport.{Transport, Reliable, Res, ok, M, pure, read_full, write_full}
use c_libp2p.Transport.Triple.{Did, Did-write}
use c_libp2p.Transport.ReadFull.{read_full-Did}
use c_libp2p.Transport.Run.{Ran, Ran-then, Ran-pure}
use c_libp2p.Yamux.{
  Header, Session, Conn, header_bytes, header_of, on_net, send_header, read_header,
}
use c_libp2p.Yamux.Stream.{StreamContext, Chan, on_conn}

-- a session, and a stream of a session, over a stream in a given state
abbrev pub conn_at : {t : Transport} → t.State → Session → Conn t
conn_at n s = record { net = n; session = s }

abbrev pub chan_at : {t : Transport} → t.State → Session × StreamContext → Chan t
chan_at n l = record { conn = record { net = n; session = l.0 }; ctx = l.1 }

-- a header as `send_header` makes it
abbrev pub frame : ℕ → ℕ → ℕ → ℕ → Header
frame type flags stream_id len = record {
  version = 0;
  type = type;
  flags = flags;
  stream_id = stream_id;
  length_ = len;
}

-- The numbers of the header fit their fields.
pub record Fits (h : Header) : Type 0 where
  pub current : h.version ≡ 0
  pub flags16 : h.flags < 2 ^ 16
  pub id32 : h.stream_id < 2 ^ 32
  pub length32 : h.length_ < 2 ^ 32

-- the bytes of a header on the wire
abbrev pub wire_of : Header → List ℕ
wire_of h = header_bytes h.type h.flags h.stream_id h.length_

pub header_of-wire_of : (h : Header) → Fits h → header_of (wire_of h) ≡ h
header_of-wire_of h f = λ i. record {
  version = sym f.current i;
  type = h.type;
  flags = from_be16-be16 h.flags f.flags16 i;
  stream_id = from_be32-be32 h.stream_id f.id32 i;
  length_ = from_be32-be32 h.length_ f.length32 i;
}

module _ {t : Transport} (rel : Reliable t) where
  open rel use {pending, sent, Usable}

  abbrev pub RanConn :
      {A : Type 0} → t.State → Res A → Session → List ℕ → List ℕ → Res A × Conn t → Type 0
  RanConn = Ran rel conn_at

  abbrev pub RanChan :
      {A : Type 0}
      → t.State
      → Res A
      → Session × StreamContext
      → List ℕ
      → List ℕ
      → Res A × Chan t
      → Type 0
  RanChan = Ran rel chan_at

  pub on_net-Ran :
      {A : Type 0} (m : M t.State A) {n : t.State} (s : Session) {r : Res A} {rest bytes : List ℕ}
      → Did rel n r rest bytes (m n)
      → RanConn n r s rest bytes (on_net t m (conn_at n s))
  on_net-Ran m {n} s d = record {
    net = (m n).1;
    result = ap (λ r. (r, conn_at (m n).1 s)) d.value;
    left = d.left;
    wrote = d.wrote;
    usable = d.usable;
  }

  pub on_conn-Ran :
      {A : Type 0} (m : M (Conn t) A) {n : t.State} {s s1 : Session} (x : StreamContext) {r : Res A}
      {rest bytes : List ℕ}
      → RanConn n r s1 rest bytes (m (conn_at n s))
      → RanChan n r (s1, x) rest bytes (on_conn t m (chan_at n (s, x)))
  on_conn-Ran m x d = record {
    net = d.net;
    result = ap (λ o. (o.0, record { conn = o.1; ctx = x })) d.result;
    left = d.left;
    wrote = d.wrote;
    usable = d.usable;
  }

  pub send_header-Ran :
      {n : t.State} (s : Session) (type flags stream_id len : ℕ) {rest : List ℕ}
      → Usable n
      → pending n ≡ rest
      → RanConn n
          (ok tt)
          s
          rest
          (header_bytes type flags stream_id len)
          (send_header t type flags stream_id len (conn_at n s))
  unfolding send_header
  send_header-Ran {n} s type flags stream_id len u e =
      on_net-Ran (write_full t (header_bytes type flags stream_id len)) s
        (Did-write rel n (header_bytes type flags stream_id len) (λ p. cc) u e)

  pub read_bytes-Ran :
      {n : t.State} (s : Session) (bs rest : List ℕ) (k : ℕ)
      → length bs ≡ k
      → Usable n
      → pending n ≡ bs ++ rest
      → RanConn n (ok bs) s rest [] (on_net t (read_full t k) (conn_at n s))
  read_bytes-Ran {n} s bs rest k len u e =
      subst (λ i. RanConn n (ok bs) s rest [] (on_net t (read_full t i) (conn_at n s))) len
        (on_net-Ran (read_full t (length bs)) s (read_full-Did rel n bs rest u e))

  -- A header comes back from the stream as it was put there.
  pub read_header-Ran :
      {n : t.State} (s : Session) (h : Header) (rest : List ℕ)
      → Fits h
      → Usable n
      → pending n ≡ wire_of h ++ rest
      → RanConn n (ok h) s rest [] (read_header t (conn_at n s))
  unfolding read_header
  read_header-Ran {n} s h rest f u e =
      Ran-then rel conn_at (on_net t (read_full t 12)) _
        (read_bytes-Ran s (wire_of h) rest 12 refl u e)
        λ n' u' left.
          subst (λ g. RanConn n' (ok g) s rest [] (pure (header_of (wire_of h)) (conn_at n' s)))
            (header_of-wire_of h f) (Ran-pure rel conn_at u' left)
