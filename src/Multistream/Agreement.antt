-- ===== src/Multistream/Agreement.antt =====
-- Both sides of a negotiation together.
use c_libp2p.Base.{ℕ, ◌≡◌, ◌≢◌, List, ◌++◌, ◌∙◌}
use c_libp2p.Base.{arith, append_assoc, false}
use c_libp2p.Base.{Option, some, ap, not, IsText}
use c_libp2p.Transport.{Transport, Reliable, ok, failed, ◌>>◌, M}
use c_libp2p.Transport.Triple.{Did, Did-bind}
use c_libp2p.Multistream.{header}
use c_libp2p.Multistream.{connect, negotiate, accept, is_refused}
use c_libp2p.Multistream.Framing.{framed}
use c_libp2p.Multistream.Texts.{IsProtocol, not_available, newline, str_eq_ne}
use c_libp2p.Multistream.Dialer.{connect-Did, negotiate-Did, negotiate_refuses}
use c_libp2p.Multistream.Listener.{accept-Did, accept_refuses}

-- A dialer that connects and then proposes `p`.
abbrev pub dial : (t : Transport) → List ℕ → M t.State (Unit {0})
dial t p = connect t >> negotiate t p

-- what both sides put on the wire when they agree on `p`
abbrev pub exchange : List ℕ → List ℕ
exchange p = framed header ++ framed (p ++ newline)

module _ {t u : Transport} (dialer : Reliable t) (listener : Reliable u) where
  -- The two sides of a negotiation fit together. On reliable streams, a dialer that proposes `p`
  -- and a listener that expects `p` (or nothing in particular) both succeed when each has the
  -- other's bytes before it, and each then sends exactly the bytes that the other needs.
  pub negotiation_agrees :
      (p : List ℕ) (expected : Option (List ℕ)) (s : t.State) (s' : u.State) (rest rest' : List ℕ)
      → IsProtocol p
      → is_refused expected p ≡ false
      → dialer.Usable s
      → listener.Usable s'
      → dialer.pending s ≡ exchange p ++ rest
      → listener.pending s' ≡ exchange p ++ rest'
      → Did dialer s (ok tt) rest (exchange p) (dial t p s)
        × Did listener s' (ok tt) rest' (exchange p) (accept u expected s')
  negotiation_agrees p expected s s' rest rest' h wanted us us' e e' = (
    Did-bind dialer (connect t) _
        (connect-Did dialer s _ us (e ∙ append_assoc (framed header) _ rest))
        λ u1 left. negotiate-Did dialer _ p rest h u1 left,
    accept-Did listener s' expected p rest' h wanted us'
        (e' ∙ append_assoc (framed header) _ rest'),
  )

  -- Where the listener expects a protocol `q`, a text that is not the proposed one, both sides fail: the
  -- listener answers with its header and "na", on which the dialer gives up, unless its protocol
  -- is called "na" itself. Neither reads past what it was sent.
  pub negotiation_fails :
      (p q : List ℕ) (s : t.State) (s' : u.State) (rest rest' : List ℕ)
      → IsProtocol p
      → IsText q
      → p ≢ q
      → not_available ≢ p ++ newline
      → dialer.Usable s
      → listener.Usable s'
      → dialer.pending s ≡ (framed header ++ framed not_available) ++ rest
      → listener.pending s' ≡ exchange p ++ rest'
      → Did dialer s failed rest (exchange p) (dial t p s)
        × Did listener s' failed rest'
            (framed header ++ framed not_available)
            (accept u (some q) s')
  negotiation_fails p q s s' rest rest' h q_text other ne us us' e e' = (
    Did-bind dialer (connect t) _
        (connect-Did dialer s _ us (e ∙ append_assoc (framed header) _ rest))
        λ u1 left.
          negotiate_refuses dialer _ p not_available rest h (omega arith) (omega arith) ne u1 left,
    accept_refuses listener s' (some q) p rest' h (ap not (str_eq_ne p q h.text q_text other)) us'
        (e' ∙ append_assoc (framed header) _ rest'),
  )
