-- ===== src/Multistream/Listener.antt =====
-- The listener's side of a negotiation: accept.
use c_libp2p.Base.{ℕ, ◌≡◌, List, ◌++◌, sym, subst}
use c_libp2p.Base.{arith, length-append, true, false}
use c_libp2p.Base.{append-nil, Option, if◌then◌else◌}
use c_libp2p.Transport.{Transport, Reliable, Res, ok, failed, ◌>>◌, attempt, fail, M}
use c_libp2p.Transport.Triple.{Did, Did-bind, Did-bytes, Did-guard}
use c_libp2p.Transport.Triple.{Did-attempt, Did-pure}
use c_libp2p.Multistream.{header, buffer_size, line, write_msg, read_msg}
use c_libp2p.Multistream.{accept, is_refused}
use c_libp2p.Multistream.Framing.{framed, write_msg-Did, read_msg-Did}
use c_libp2p.Multistream.Texts.{IsProtocol, not_available, newline, header-IsText, line-protocol}
use c_libp2p.Multistream.Texts.{line-IsText, str_eq_refl, proposal_text}

-- accept's last part, on a message that it has read and trimmed
abbrev settle : (t : Transport) → Option (List ℕ) → List ℕ → M t.State (Unit {0})
settle t expected msg =
    if is_refused expected msg
    then (attempt (write_msg t not_available) >> fail)
    else write_msg t (line msg)

module _ {t : Transport} (rel : Reliable t) where
  open rel use {pending, Usable}

  settle_same :
      (expected : Option (List ℕ)) {m p rest out : List ℕ} {r : Res (Unit {0})} {s : t.State}
      → m ≡ p
      → Did rel s r rest out (settle t expected p s)
      → Did rel s r rest out (settle t expected m s)
  settle_same expected {rest = rest} {out = out} {r = r} {s = s} e d =
      subst (λ x. Did rel s r rest out (settle t expected x s)) (sym e) d

  -- accept up to there, on a dialer that sends the header and one proposal
  accept_reads :
      (s : t.State) (expected : Option (List ℕ)) (p rest out : List ℕ) (r : Res (Unit {0}))
      → IsProtocol p
      → Usable s
      → pending s ≡ framed header ++ (framed (p ++ newline) ++ rest)
      → ((s' : t.State)
          → Usable s'
          → pending s' ≡ rest
          → Did rel s' r rest out (settle t expected p s'))
      → Did rel s r rest (framed header ++ out) (accept t expected s)
  unfolding accept
  accept_reads s expected p rest out r h u e end =
      Did-bind rel (read_msg t buffer_size) _
        (read_msg-Did rel s buffer_size header _ (omega arith) (omega arith) u e)
        λ u1 left1. Did-guard rel _ (str_eq_refl header) (
          Did-bind rel (write_msg t header) _ (write_msg-Did rel _ header _ header-IsText u1 left1)
            λ u2 left2.
              Did-bind rel (read_msg t buffer_size) _
                (read_msg-Did rel _ buffer_size (p ++ newline) rest
                  (omega (arith, length-append p newline, h.fits)) (omega arith) u2 left2)
                λ u3 left3. settle_same expected (proposal_text p h) (end _ u3 left3))

  -- accept confirms a proposal that it expects, or any where it expects none in particular.
  pub accept-Did :
      (s : t.State) (expected : Option (List ℕ)) (p rest : List ℕ)
      → IsProtocol p
      → is_refused expected p ≡ false
      → Usable s
      → pending s ≡ framed header ++ (framed (p ++ newline) ++ rest)
      → Did rel s (ok tt) rest (framed header ++ framed (p ++ newline)) (accept t expected s)
  accept-Did s expected p rest h wanted u e =
      accept_reads s expected p rest (framed (p ++ newline)) (ok tt) h u e λ s' u' left.
        rw (wanted, line-protocol p h)
          (write_msg-Did rel s' (p ++ newline) rest (line-IsText p h) u' left)

  -- accept answers "na" to any other proposal, and fails.
  pub accept_refuses :
      (s : t.State) (expected : Option (List ℕ)) (p rest : List ℕ)
      → IsProtocol p
      → is_refused expected p ≡ true
      → Usable s
      → pending s ≡ framed header ++ (framed (p ++ newline) ++ rest)
      → Did rel s failed rest (framed header ++ framed not_available) (accept t expected s)
  accept_refuses s expected p rest h unwanted u e =
      accept_reads s expected p rest (framed not_available) failed h u e λ s' u' left. rw unwanted (
        Did-bytes rel (append-nil (framed not_available)) (
          Did-bind rel (attempt (write_msg t not_available)) (λ _. fail)
            (Did-attempt rel (write_msg t not_available)
              (write_msg-Did rel s' not_available rest (omega arith) u' left))
            λ u'' left'. Did-pure rel u'' left'))
