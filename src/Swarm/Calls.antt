-- ===== src/Swarm/Calls.antt =====
-- What the multistream greeting and Identify do with their stream: they read and write.
use c_libp2p.Base.{ℕ, zero, suc, ◌+◌, List, [], ◌∷◌, Option, none, some, length, drop}
use c_libp2p.Base.{Bool, true, false, not, ltb, leb, ◌==◌, bit_and, if◌then◌else◌}
use c_libp2p.Transport.{Transport, failed, M}
use c_libp2p.Transport.Handle.{IsHandle, Quiet, Quiet-bind, Quiet-pure, Quiet-guard, Quiet-if}
use c_libp2p.Transport.Handle.{read_full-Quiet, read_byte-Quiet, write_full-Quiet}
use c_libp2p.Multistream.{
  header, buffer_size, str_eq, add_group, write_msg, read_len_rounds, read_len, read_msg, connect,
}
use c_libp2p.Protobuf.{Protobuf}
use c_libp2p.Identify.{
  Identity, RemotePeer, response, written, prefix_rounds, write_rounds, read_varint_length,
  send_message, send_response, receive,
}

module _ {t : Transport} {Alive Closed : t.State → Type 0} (handle : IsHandle t Alive Closed) where
  write_msg-Quiet : (msg : List ℕ) → Quiet Alive (write_msg t msg)
  unfolding write_msg
  write_msg-Quiet msg = write_full-Quiet handle _

  read_len_rounds-Quiet : (fuel acc shift : ℕ) → Quiet Alive (read_len_rounds t fuel acc shift)
  unfolding read_len_rounds
  read_len_rounds-Quiet zero acc shift = record { run = λ s h. h }
  read_len_rounds-Quiet (suc fuel) acc shift = Quiet-bind (read_byte-Quiet handle) (λ byte.
      let more = read_len_rounds-Quiet fuel (add_group acc byte shift) (shift + 7) in
      Quiet-if (leb 64 shift) (record { run = λ s h. h })
        (Quiet-if (bit_and byte 0x80 == 0) (Quiet-pure (add_group acc byte shift)) more))

  read_len-Quiet : Quiet Alive (read_len t)
  unfolding read_len
  read_len-Quiet = read_len_rounds-Quiet 11 0 0

  read_msg-Quiet : (max_len : ℕ) → Quiet Alive (read_msg t max_len)
  unfolding read_msg
  read_msg-Quiet max_len = Quiet-bind (Quiet-guard (ltb 0 max_len)) (λ u.
      Quiet-bind read_len-Quiet
        (λ n. Quiet-bind (Quiet-guard (ltb n max_len)) (λ u. read_full-Quiet handle n)))

  pub connect-Quiet : Quiet Alive (connect t)
  unfolding connect
  connect-Quiet = Quiet-bind (write_msg-Quiet header) (λ u.
      Quiet-bind (read_msg-Quiet buffer_size) (λ response. Quiet-guard (str_eq response header)))

  written-Alive :
      (n : Option ℕ) (bs : List ℕ) (again : List ℕ → M t.State (Unit {0}))
      → ((rest : List ℕ) → Quiet Alive (again rest))
      → Quiet Alive (written t n bs again)
  written-Alive none bs again q = record { run = λ s h. h }
  written-Alive (some n) bs again q = record { run = λ s h. go (n == 0) s h }
    where
      go :
          (b : Bool) (s : t.State)
          → Alive s
          → Alive (if b then (failed, s) else again (drop n bs) s).1
      go true s h = h
      go false s h = (q (drop n bs)).run s h

  write_rounds-Quiet : (fuel : ℕ) (bs : List ℕ) → Quiet Alive (write_rounds t fuel bs)
  unfolding write_rounds
  write_rounds-Quiet fuel [] = record { run = λ s h. h }
  write_rounds-Quiet zero (b ∷ bs) = record { run = λ s h. h }
  write_rounds-Quiet (suc fuel) (b ∷ bs) =
      let rest : (l : List ℕ) → Quiet Alive (write_rounds t fuel l) = write_rounds-Quiet fuel in
      record {
        run = λ s h.
            (written-Alive (t.write s (b ∷ bs)).0 (b ∷ bs) (write_rounds t fuel) rest).run
              (t.write s (b ∷ bs)).1 (handle.write-Alive s (b ∷ bs) h);
      }

  pub send_response-Quiet : (p : Protobuf) (me : Identity) → Quiet Alive (send_response p t me)
  unfolding send_response
  send_response-Quiet p me = go (response p me)
    where
      go : (msg : Option (List ℕ)) → Quiet Alive (send_message p t msg)
      go none = record { run = λ s h. h }
      go (some msg) =
          Quiet-bind
            (write_rounds-Quiet (length (p.encode_varint (length msg)))
              (p.encode_varint (length msg)))
            (λ u. write_rounds-Quiet (length msg) msg)

  prefix_rounds-Quiet : (room : ℕ) → Quiet Alive (prefix_rounds t room)
  unfolding prefix_rounds
  prefix_rounds-Quiet zero = record { run = λ s h. h }
  prefix_rounds-Quiet (suc room) =
      let more = prefix_rounds-Quiet room in
      Quiet-bind (read_byte-Quiet handle) (λ b.
        Quiet-if (bit_and b 128 == 0) (Quiet-pure (b ∷ []))
          (Quiet-bind more (λ bs. Quiet-pure (b ∷ bs))))

  pub receive-Quiet :
      (p : Protobuf) (peer_id_of : List ℕ → ℕ → Option (List ℕ)) (peer : RemotePeer)
      → Quiet Alive (receive p t peer_id_of peer)
  unfolding receive read_varint_length
  receive-Quiet p peer_id_of peer =
      Quiet-bind
        (Quiet-bind (prefix_rounds-Quiet 16) (λ prefix.
          Quiet-bind (Quiet-guard ((p.varint prefix).1 == length prefix))
            (λ u. Quiet-pure (p.varint prefix).0)))
        (λ n.
          Quiet-bind (Quiet-guard (not (n == 0)))
            (λ u. Quiet-bind (read_full-Quiet handle n) (λ body. record { run = λ s h. h })))
