-- ===== src/Channel/Tests.antt =====
-- A stream below that keeps its messages, one that is broken, and the theorems over them.
use c_libp2p.Base.{ℕ, ◌≡◌, ◌≤◌, refl, List, [], ◌∷◌, ◌++◌, true, false, codes, length, All, arith}
use c_libp2p.Base.{pos}
use c_libp2p.Transport.{ok, stuck}
use c_libp2p.Channel.{Parent, Link, channel_new, channel_write, channel_close, einval}
use c_libp2p.Channel.{receive_flags, stream_init}
use c_libp2p.Channel.Pieces.{Accepting, joined, messages, channel_write_lem, channel_write_endless}
use c_libp2p.Channel.Closing.{start, next, by_init, by_frame, channel_close_refuses}

abbrev log : Parent
log = record { State = List (List ℕ); write = λ bytes s. (true, s ++ (bytes ∷ [])) }

abbrev log_accepting : Accepting log
log_accepting = record { written = λ s. s; takes = λ bytes s. refl; keeps = λ bytes s. refl }

abbrev broken : Parent
broken = record { State = Unit; write = λ bytes s. (false, s) }

abbrev fresh : ℕ → Link log
fresh window = record { parent = []; ctx = channel_new 5 window }

channel_write_lem_example :
    (pieces : List (List ℕ)) × (joined pieces ≡ codes "hello")
    × All (λ b. length b ≤ 2) pieces
    × ((channel_write log 5 (codes "hello") (fresh 2)).0 ≡ ok (pos 5))
    × ((channel_write log 5 (codes "hello") (fresh 2)).1.parent ≡ messages log 1 5 pieces)
channel_write_lem_example =
    channel_write_lem log_accepting 5 (codes "hello") (fresh 2) (λ e. cc) (omega arith)
      (omega arith)

channel_write_endless_example :
    ((channel_write log 3 (codes "hello") (fresh 0)).0 ≡ stuck)
    × ((channel_write log 3 (codes "hello") (fresh 0)).1.parent
        ≡ (0 ∷ 0 ∷ 0 ∷ 1 ∷ 0 ∷ 0 ∷ 0 ∷ 5 ∷ 0 ∷ 0 ∷ 0 ∷ 0 ∷ [])
          ∷ (0 ∷ 0 ∷ 0 ∷ 0 ∷ 0 ∷ 0 ∷ 0 ∷ 5 ∷ 0 ∷ 0 ∷ 0 ∷ 0 ∷ [])
          ∷ (0 ∷ 0 ∷ 0 ∷ 0 ∷ 0 ∷ 0 ∷ 0 ∷ 5 ∷ 0 ∷ 0 ∷ 0 ∷ 0 ∷ [])
          ∷ [])
channel_write_endless_example =
    channel_write_endless log_accepting 3 (codes "hello") (fresh 0) (λ e. cc) refl

-- opened, and acknowledged by the peer
abbrev opened : Link log
opened = (stream_init log (fresh 100)).1

abbrev acknowledged : Link log
acknowledged = record opened { ctx = (receive_flags 2 opened.ctx).1 }

channel_close_refuses_example : channel_close log acknowledged ≡ (einval, acknowledged)
channel_close_refuses_example =
    channel_close_refuses log [] 5 100 acknowledged
      (next (next (start (fresh 100)) (by_init (fresh 100))) (by_frame opened 2))
