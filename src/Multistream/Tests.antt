-- ===== src/Multistream/Tests.antt =====
-- Runs over a concrete stream, and the theorems at concrete inputs.
use c_libp2p.Base.{ap, ℕ, ◌≡◌, ◌≢◌, refl, List, [], ◌∷◌, ◌++◌, some, none, arith, codes, c_string}
use c_libp2p.Base.{bytes_eq}
use c_libp2p.Transport.{ok, failed, undefined, read_byte, read_full, write_full}
use c_libp2p.Transport.Triple.{Did}
use c_libp2p.Transport.Wire.{Wire, wire, wire_reliable}
use c_libp2p.Multistream.{header, len_prefix, trim}
use c_libp2p.Multistream.{read_len, write_msg, read_msg, accept}
use c_libp2p.Multistream.Framing.{framed, read_msg-write_msg}
use c_libp2p.Multistream.Texts.{not_available}
use c_libp2p.Multistream.Limits.{read_msg_undefined}
use c_libp2p.Multistream.Agreement.{dial, exchange, negotiation_agrees, negotiation_fails}

abbrev yamux : List ℕ
yamux = codes "/yamux/1.0.0"

abbrev mplex : List ℕ
mplex = codes "/mplex/6.7.0"

-- A stream with `bs` before it, read in pieces of one, three and two bytes at first.
abbrev peer : List ℕ → Wire
peer bs = record { inbox = bs; sizes = 0 ∷ 2 ∷ 1 ∷ []; outbox = [] }

len_prefix_300 : len_prefix 300 ≡ 0xac ∷ 0x02 ∷ []
unfolding len_prefix
len_prefix_300 = refl

accept_any : (accept wire none (peer (exchange yamux))).0 ≡ ok tt
unfolding accept read_msg write_msg read_len read_byte read_full write_full len_prefix c_string
    bytes_eq trim
accept_any = refl

read_msg-write_msg_example :
    ((write_msg wire yamux (peer [])).0 ≡ ok tt)
    × ((read_msg wire 256 (peer (framed yamux ++ (7 ∷ [])))).0 ≡ ok yamux)
    × ((read_msg wire 256 (peer (framed yamux ++ (7 ∷ [])))).1.inbox ≡ 7 ∷ [])
unfolding write_msg write_full c_string
read_msg-write_msg_example =
    read_msg-write_msg wire_reliable (peer []) (peer (framed yamux ++ (7 ∷ []))) 256 yamux
      (framed yamux) (7 ∷ []) (omega arith) (omega arith) (omega arith) tt tt refl refl

abbrev eleven : List ℕ
eleven = 255 ∷ 255 ∷ 255 ∷ 255 ∷ 255 ∷ 255 ∷ 255 ∷ 255 ∷ 255 ∷ 255 ∷ 255 ∷ []

read_msg_undefined_example : (read_msg wire 256 (peer eleven)).0 ≡ undefined
read_msg_undefined_example =
    read_msg_undefined wire_reliable (peer eleven) 256 eleven [] (omega arith) refl (omega arith) tt
      refl

negotiation_agrees_example :
    Did wire_reliable
      (peer (exchange yamux))
      (ok tt)
      []
      (exchange yamux)
      (dial wire yamux (peer (exchange yamux)))
    × Did wire_reliable
        (peer (exchange yamux))
        (ok tt)
        []
        (exchange yamux)
        (accept wire (some yamux) (peer (exchange yamux)))
unfolding bytes_eq c_string len_prefix
negotiation_agrees_example =
    negotiation_agrees wire_reliable wire_reliable yamux (some yamux) (peer (exchange yamux))
      (peer (exchange yamux)) [] [] (omega arith) refl tt tt refl refl

abbrev second : List ℕ → ℕ
second (a ∷ b ∷ bs) = b
second bs = 0

differs : mplex ≢ yamux
differs e = absurd (omega (arith, ap second e))

abbrev refusal : List ℕ
refusal = framed header ++ framed not_available

negotiation_fails_example :
    Did wire_reliable (peer refusal) failed [] (exchange mplex) (dial wire mplex (peer refusal))
    × Did wire_reliable
        (peer (exchange mplex))
        failed
        []
        refusal
        (accept wire (some yamux) (peer (exchange mplex)))
unfolding bytes_eq c_string len_prefix
negotiation_fails_example =
    negotiation_fails wire_reliable wire_reliable mplex yamux (peer refusal) (peer (exchange mplex))
      [] [] (omega arith) (omega arith) differs (λ e. cc) tt tt refl refl
