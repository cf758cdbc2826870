-- ===== src/Transport/Wire.antt =====
-- A concrete stream: a socket whose peer has sent `inbox`, and whose reads are cut short as the
-- list `sizes` says. It shows that the interface can be met, and the tests run over it.
use c_libp2p.Base.{ℕ, zero, suc, ◌≤◌, ◌<◌, ◌≢◌, refl, sym, List, [], ◌∷◌, ◌++◌, length, min}
use c_libp2p.Base.{Option, some, take, drop, arith, take-append-drop, length-take}
use c_libp2p.Transport.{Transport, Reliable}

pub record Wire : Type 0 where
  pub inbox : List ℕ
  -- for each of the next reads, one less than the most that it delivers; then there is no limit
  pub sizes : List ℕ
  pub outbox : List ℕ

abbrev pub limit : List ℕ → ℕ → ℕ
limit [] n = n
limit (k ∷ ks) n = min n (suc k)

abbrev pub later : List ℕ → List ℕ
later [] = []
later (k ∷ ks) = ks

abbrev pub wire_read : Wire → ℕ → List ℕ × Wire
wire_read w n =
    let k = limit w.sizes n in
    (take k w.inbox, record w { inbox = drop k w.inbox; sizes = later w.sizes })

abbrev pub wire_write : Wire → List ℕ → Option ℕ × Wire
wire_write w bs = (some (length bs), record w { outbox = w.outbox ++ bs })

abbrev pub wire : Transport
wire = record { State = Wire; read = wire_read; write = wire_write; close = λ w. w }

limit-le : (ks : List ℕ) (n : ℕ) → limit ks n ≤ n
limit-le [] n = omega arith
limit-le (k ∷ ks) n = omega arith

pub limit-pos : (ks : List ℕ) (n : ℕ) → 0 < n → 0 < limit ks n
limit-pos [] n h = h
limit-pos (k ∷ ks) n h = omega arith

pub take-ne-nil : (k : ℕ) (xs : List ℕ) → 0 < k → xs ≢ [] → take k xs ≢ []
take-ne-nil zero xs h ne = absurd (omega arith)
take-ne-nil (suc k) [] h ne = ne
take-ne-nil (suc k) (x ∷ xs) h ne = λ e. cc

pub length-take-le : (w : Wire) (n : ℕ) → length (take (limit w.sizes n) w.inbox) ≤ n
length-take-le w n = omega (arith, length-take (limit w.sizes n) w.inbox, limit-le w.sizes n)

abbrev pub wire_reliable : Reliable wire
wire_reliable = record {
  pending = λ w. w.inbox;
  sent = λ w. w.outbox;
  Usable = λ w. Unit {0};
  read_pos = λ s n u ne h. take-ne-nil (limit s.sizes n) s.inbox (limit-pos s.sizes n h) ne;
  read_le = λ s n u. length-take-le s n;
  read_front = λ s n u. sym (take-append-drop (limit s.sizes n) s.inbox);
  sent-read = λ s n u. refl;
  read-Usable = λ s n u. tt;
  write_all = λ s bs u ne. refl;
  sent-write = λ s bs u ne. refl;
  pending-write = λ s bs u. refl;
  write-Usable = λ s bs u. tt;
}
