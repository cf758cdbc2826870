-- ===== src/Multistream/Framing.antt =====
-- write_length_prefixed_msg and read_length_prefixed_msg on a reliable stream.
use c_libp2p.Base.{ℕ, ◌^◌, ◌≤◌, ◌<◌, ◌≡◌, ◌≢◌, List, [], ◌++◌, length, ap, ◌∙◌, sym}
use c_libp2p.Base.{arith, append_assoc, append_cancel_left, ltb, true, false, IsText, c_string-text}
use c_libp2p.Transport.{Transport, Reliable, ok, failed}
use c_libp2p.Transport.Triple.{Did, Did-bind, Did-guard, Did-guard_failed, Did-write}
use c_libp2p.Transport.ReadFull.{read_full-Did}
use c_libp2p.Multistream.{len_rounds, len_prefix, write_msg, read_msg, read_len}
use c_libp2p.Multistream.Varint.{read_len-Did}

-- the bytes of a message on the wire
abbrev pub framed : List ℕ → List ℕ
framed msg = len_prefix (length msg) ++ msg

len_prefix-ne-nil : (n : ℕ) (bs : List ℕ) → len_prefix n ++ bs ≢ []
unfolding len_prefix len_rounds
len_prefix-ne-nil n bs e = ground arith

ltb_of_less : (a b : ℕ) → a < b → ltb a b ≡ true
ltb_of_less a b h = ground arith

ltb_of_not_less : (a b : ℕ) → b ≤ a → ltb a b ≡ false
ltb_of_not_less a b h = ground arith

module _ {t : Transport} (rel : Reliable t) where
  open rel use {pending, sent, Usable}

  -- The writer puts the frame of a text on the stream, whatever is to be read there.
  pub write_msg-Did :
      (s : t.State) (msg rest : List ℕ)
      → IsText msg
      → Usable s
      → pending s ≡ rest
      → Did rel s (ok tt) rest (framed msg) (write_msg t msg s)
  unfolding write_msg
  write_msg-Did s msg rest h u e =
      rw (c_string-text msg h)
        (Did-write rel s (framed msg) (len_prefix-ne-nil (length msg) msg) u e)

  -- The reader returns a message that fits its buffer, and leaves what follows it.
  pub read_msg-Did :
      (s : t.State) (max_len : ℕ) (msg rest : List ℕ)
      → length msg < max_len
      → max_len ≤ 2 ^ 64
      → Usable s
      → pending s ≡ framed msg ++ rest
      → Did rel s (ok msg) rest [] (read_msg t max_len s)
  unfolding read_msg
  read_msg-Did s max_len msg rest h top u e =
      Did-guard rel _ (ltb_of_less 0 max_len (omega arith)) (
        Did-bind rel (read_len t) _
          (read_len-Did rel s (length msg) (msg ++ rest) (omega arith) u
            (e ∙ append_assoc (len_prefix (length msg)) msg rest))
          λ u' left.
            Did-guard rel _ (ltb_of_less (length msg) max_len h)
              (read_full-Did rel _ msg rest u' left))

  -- A message that does not fit the buffer is refused: its length is taken off the stream, and
  -- its bytes are left there.
  pub read_msg_too_long :
      (s : t.State) (max_len n : ℕ) (rest : List ℕ)
      → 0 < max_len
      → max_len ≤ n
      → n < 2 ^ 64
      → Usable s
      → pending s ≡ len_prefix n ++ rest
      → Did rel s failed rest [] (read_msg t max_len s)
  unfolding read_msg
  read_msg_too_long s max_len n rest pos h top u e = Did-guard rel _ (ltb_of_less 0 max_len pos) (
      Did-bind rel (read_len t) _ (read_len-Did rel s n rest top u e)
        λ u' left. Did-guard_failed rel _ (ltb_of_not_less n max_len h) u' left)

  -- What one side writes, the other side reads: if all that `writer` has written since it stood at
  -- `w` is pending at `reader`, before some `rest`, then the reader gets the message, and `rest` is
  -- what is left to it.
  pub read_msg-write_msg :
      (w reader : t.State) (max_len : ℕ) (msg bytes rest : List ℕ)
      → IsText msg
      → length msg < max_len
      → max_len ≤ 2 ^ 64
      → Usable w
      → Usable reader
      → sent (write_msg t msg w).1 ≡ sent w ++ bytes
      → pending reader ≡ bytes ++ rest
      → ((write_msg t msg w).0 ≡ ok tt)
        × ((read_msg t max_len reader).0 ≡ ok msg)
        × (pending (read_msg t max_len reader).1 ≡ rest)
  read_msg-write_msg w reader max_len msg bytes rest h fits top uw ur wrote e =
      let out : Did rel w (ok tt) (pending w) (framed msg) (write_msg t msg w) =
        write_msg-Did w msg (pending w) h uw (λ i. pending w) in
      let same : bytes ≡ framed msg = append_cancel_left (sent w) (sym wrote ∙ out.wrote) in
      let back : Did rel reader (ok msg) rest [] (read_msg t max_len reader) =
        read_msg-Did reader max_len msg rest fits top ur (e ∙ ap (λ l. l ++ rest) same) in
      (out.value, back.value, back.left)
