-- ===== src/Transport/Door.antt =====
-- A stream in memory that counts how often it is closed, and how often it is used after that.
use c_libp2p.Base.{ℕ, ◌+◌, ◌≡◌, arith}
use c_libp2p.Transport.{Transport}
use c_libp2p.Transport.Wire.{Wire, wire}
use c_libp2p.Transport.Handle.{IsHandle}

pub record Door : Type 0 where
  pub line : Wire
  pub closes : ℕ
  pub misuses : ℕ

-- a call on the line, which is a misuse where the door is closed
abbrev used : Door → Wire → Door
used d w = record { line = w; closes = d.closes; misuses = d.misuses + d.closes }

abbrev pub door : Transport
door = record {
  State = Door;
  read = λ d n. ((wire.read d.line n).0, used d (wire.read d.line n).1);
  write = λ d bs. ((wire.write d.line bs).0, used d (wire.write d.line bs).1);
  close = λ d. record (used d d.line) { closes = d.closes + 1 };
}

abbrev pub IsAjar : Door → Type 0
IsAjar d = (d.closes ≡ 0) × (d.misuses ≡ 0)

abbrev pub IsShut : Door → Type 0
IsShut d = (d.closes ≡ 1) × (d.misuses ≡ 0)

pub door-IsHandle : IsHandle door IsAjar IsShut
door-IsHandle = record {
  read-Alive = λ d n h. (h.0, omega (arith, h.0, h.1));
  write-Alive = λ d bs h. (h.0, omega (arith, h.0, h.1));
  close-Closed = λ d h. (omega (arith, h.0, h.1), omega (arith, h.0, h.1));
}
