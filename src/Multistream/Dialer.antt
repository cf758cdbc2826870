-- ===== src/Multistream/Dialer.antt =====
-- The dialer's side of a negotiation: connect and negotiate_protocol.
use c_libp2p.Base.{ℕ, ◌<◌, ◌≡◌, ◌≢◌, List, [], ◌++◌, length, sym, subst}
use c_libp2p.Base.{arith, length-append, IsText}
use c_libp2p.Base.{append-nil}
use c_libp2p.Transport.{Transport, Reliable, Res, ok, failed, ◌>>=◌, ◌>>◌, guard, M}
use c_libp2p.Transport.Triple.{Did, Did-bind, Did-bytes}
use c_libp2p.Transport.Triple.{Did-guard_last, Did-guard_last_failed}
use c_libp2p.Multistream.{header, buffer_size, str_eq, write_msg, read_msg}
use c_libp2p.Multistream.{connect, negotiate}
use c_libp2p.Multistream.Framing.{framed, write_msg-Did, read_msg-Did}
use c_libp2p.Multistream.Texts.{IsProtocol, newline, header-IsText, line-protocol}
use c_libp2p.Multistream.Texts.{line-IsText, str_eq_refl, str_eq_ne}

-- The common shape of connect and negotiate_protocol.
abbrev propose : (t : Transport) → List ℕ → M t.State (Unit {0})
propose t x = do write_msg t x; response ← read_msg t buffer_size; guard (str_eq response x)

abbrev answer : (t : Transport) → List ℕ → Unit {0} → M t.State (Unit {0})
answer t x = λ _. read_msg t buffer_size >>= λ response. guard (str_eq response x)

abbrev check : (t : Transport) → List ℕ → List ℕ → M t.State (Unit {0})
check t x response = guard (str_eq response x)

module _ {t : Transport} (rel : Reliable t) where
  open rel use {pending, sent, Usable}

  propose-Did :
      (s : t.State) (x response rest : List ℕ) (r : Res (Unit {0}))
      → IsText x
      → length response < 256
      → Usable s
      → pending s ≡ framed response ++ rest
      → ((s' : t.State)
          → Usable s'
          → pending s' ≡ rest
          → Did rel s' r rest [] (check t x response s'))
      → Did rel s r rest (framed x) (propose t x s)
  propose-Did s x response rest r h fits u e end = Did-bytes rel (append-nil (framed x)) (
      Did-bind rel (write_msg t x) (answer t x) (write_msg-Did rel s x _ h u e) λ u' left.
        Did-bind rel (read_msg t buffer_size) (check t x)
          (read_msg-Did rel _ buffer_size response rest fits (omega arith) u' left)
          λ u'' left'. end _ u'' left')

  -- connect succeeds when the header is echoed, having sent the header.
  pub connect-Did :
      (s : t.State) (rest : List ℕ)
      → Usable s
      → pending s ≡ framed header ++ rest
      → Did rel s (ok tt) rest (framed header) (connect t s)
  unfolding connect
  connect-Did s rest u e =
      propose-Did s header header rest (ok tt) header-IsText (omega arith) u e
        λ s' u' left. Did-guard_last rel (str_eq_refl header) u' left

  -- connect refuses any other text that fits its buffer, with the header sent all the same.
  pub connect_refuses :
      (s : t.State) (response rest : List ℕ)
      → IsText response
      → length response < 256
      → response ≢ header
      → Usable s
      → pending s ≡ framed response ++ rest
      → Did rel s failed rest (framed header) (connect t s)
  unfolding connect
  connect_refuses s response rest h fits ne u e =
      propose-Did s header response rest failed header-IsText fits u e λ s' u' left.
        Did-guard_last_failed rel (str_eq_ne response header h header-IsText ne) u' left

  -- negotiate_protocol succeeds when the proposal is echoed.
  pub negotiate-Did :
      (s : t.State) (p rest : List ℕ)
      → IsProtocol p
      → Usable s
      → pending s ≡ framed (p ++ newline) ++ rest
      → Did rel s (ok tt) rest (framed (p ++ newline)) (negotiate t p s)
  unfolding negotiate
  negotiate-Did s p rest h u e =
      subst (λ x. Did rel s (ok tt) rest (framed (p ++ newline)) (propose t x s))
        (sym (line-protocol p h))
        (propose-Did s (p ++ newline) (p ++ newline) rest (ok tt) (line-IsText p h)
          (omega (arith, length-append p newline, h.fits)) u e
          λ s' u' left. Did-guard_last rel (str_eq_refl (p ++ newline)) u' left)

  -- It fails on any other text that fits its buffer.
  pub negotiate_refuses :
      (s : t.State) (p response rest : List ℕ)
      → IsProtocol p
      → IsText response
      → length response < 256
      → response ≢ p ++ newline
      → Usable s
      → pending s ≡ framed response ++ rest
      → Did rel s failed rest (framed (p ++ newline)) (negotiate t p s)
  unfolding negotiate
  negotiate_refuses s p response rest hp h fits ne u e =
      subst (λ x. Did rel s failed rest (framed (p ++ newline)) (propose t x s))
        (sym (line-protocol p hp))
        (propose-Did s (p ++ newline) response rest failed (line-IsText p hp) fits u e λ s' u' left.
          Did-guard_last_failed rel (str_eq_ne response _ h (line-IsText p hp) ne) u' left)
