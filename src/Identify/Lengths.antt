-- ===== src/Identify/Lengths.antt =====
-- The length before a message.
use c_libp2p.Base.{ℕ, zero, suc, ◌^◌, ◌≤◌, ◌<◌, ◌≡◌, sym, ap, ◌∙◌, List, [], ◌∷◌, ◌++◌}
use c_libp2p.Base.{length, append-nil, true, false, ◌==◌, bit_and, bit_and_128, ==_refl, arith}
use c_libp2p.Transport.{Transport, Reliable, ok, read_byte}
use c_libp2p.Transport.Triple.{Did, Did-pure, Did-bind, Did-guard}
use c_libp2p.Transport.ReadFull.{Did-read_byte}
use c_libp2p.Protobuf.{Protobuf, IsProtobuf, IsVarint}
use c_libp2p.Identify.{prefix_rounds, read_varint_length}

last_bit : (b : ℕ) → b < 128 → (bit_and b 128 == 0) ≡ true
last_bit b h = ground (arith, bit_and_128 b)

more_bit : (b : ℕ) → 128 ≤ b → b < 256 → (bit_and b 128 == 0) ≡ false
more_bit b h h' = ground (arith, bit_and_128 b)

module _ {t : Transport} (rel : Reliable t) (p : Protobuf) (lawful : IsProtobuf p) where
  open rel use {pending, sent, Usable}

  prefix_rounds-Did :
      (room : ℕ) (s : t.State) (bs rest : List ℕ)
      → IsVarint bs
      → length bs ≤ room
      → Usable s
      → pending s ≡ bs ++ rest
      → Did rel s (ok bs) rest [] (prefix_rounds t room s)
  unfolding prefix_rounds
  prefix_rounds-Did room s [] rest v h u e = elim v [ ]
  prefix_rounds-Did zero s (b ∷ bs) rest v h u e = absurd (omega arith)
  prefix_rounds-Did (suc room) s (b ∷ []) rest v h u e =
      Did-bind rel (read_byte t) _ (Did-read_byte rel s b rest u e)
        λ u' left. rw (last_bit b v) (Did-pure rel u' left)
  prefix_rounds-Did (suc room) s (b ∷ c ∷ bs) rest (v, v', vs) h u e =
      Did-bind rel (read_byte t) _ (Did-read_byte rel s b (c ∷ bs ++ rest) u e) λ u' left.
        rw (more_bit b v v') (
          Did-bind rel (prefix_rounds t room) _
            (prefix_rounds-Did room _ (c ∷ bs) rest vs (omega arith) u' left)
            λ u'' left'. Did-pure rel u'' left')

  -- The reader gets the number of which the varint is on the stream.
  pub read_varint_length-Did :
      (s : t.State) (n : ℕ) (rest : List ℕ)
      → n < 2 ^ 64
      → Usable s
      → pending s ≡ lawful.size n ++ rest
      → Did rel s (ok n) rest [] (read_varint_length p t s)
  unfolding read_varint_length
  read_varint_length-Did s n rest small u e =
      let bs : List ℕ = lawful.size n in
      let value : p.varint bs ≡ (n, length bs) =
        ap p.varint (sym (append-nil bs)) ∙ lawful.varint-size n [] small in
      Did-bind rel (prefix_rounds t 16) _
        (prefix_rounds-Did 16 s bs rest (lawful.size-IsVarint n small)
          (omega (arith, lawful.size_short n small)) u e)
        λ u' left. rw value (Did-guard rel _ (==_refl (length bs)) (Did-pure rel u' left))
