-- ===== src/Multiaddr/Complete.antt =====
-- What can be relied on of an address that was made from a text.
use c_libp2p.Base.{
  ℕ, ◌^◌, ◌<◌, ◌≡◌, ◌⊎◌, inl, inr, refl, sym, ap, subst, ◌∙◌, List, [], ◌∷◌, take, tokens,
}
use c_libp2p.Base.{Option, none, some, ◌==◌, if_true, if_false, Bool-cases, Option-cases, arith}
use c_libp2p.Transport.{Res, ok, failed, undefined}
use c_libp2p.Multiaddr.{MultiAddress, Part, ip4, ip6, tcp, other, slash, af_inet, af_inet6}
use c_libp2p.Multiaddr.{signed_port, skip_spaces, atoi_port, set_port, part_of, round, parse, blank}
use c_libp2p.Multiaddr.{complete, complete_with, completed, new_from_string}

-- an address in the making
pub record IsSound (str : List ℕ) (ma : MultiAddress) : Type 0 where
  pub raw : ma.raw_string ≡ str
  pub family : (ma.family ≡ af_inet) ⊎ (ma.family ≡ af_inet6)
  pub port_fits : ma.port < 2 ^ 16

signed_port_fits : (bs : List ℕ) (port : ℕ) → signed_port bs ≡ some port → port < 2 ^ 16
signed_port_fits [] port e = ground arith
signed_port_fits (b ∷ bs) port e = ground arith

abbrev Keeps : List ℕ → (MultiAddress → Res MultiAddress) → Type 0
Keeps str f = (ma out : MultiAddress) → IsSound str ma → f ma ≡ ok out → IsSound str out

set_port-Keeps :
    (str : List ℕ) (port : Option ℕ) (after : MultiAddress → Res MultiAddress)
    → Keeps str after
    → ((p : ℕ) → port ≡ some p → p < 2 ^ 16)
    → Keeps str (set_port port after)
set_port-Keeps str none after h fits ma out s e = absurd (cc)
set_port-Keeps str (some p) after h fits ma out s e =
    h (record ma { port = p }) out
      (record { raw = s.raw; family = s.family; port_fits = fits p refl }) e

round-Keeps :
    (str : List ℕ) (part : Part) (next : List ℕ) (after skip : MultiAddress → Res MultiAddress)
    → Keeps str after
    → Keeps str skip
    → Keeps str (round part next after skip)
unfolding atoi_port
round-Keeps str ip4 next after skip h h' ma out s e =
    h _ out (record { raw = s.raw; family = inl refl; port_fits = s.port_fits }) e
round-Keeps str ip6 next after skip h h' ma out s e =
    h _ out (record { raw = s.raw; family = inr refl; port_fits = s.port_fits }) e
round-Keeps str tcp next after skip h h' ma out s e =
    set_port-Keeps str (atoi_port next) after h (signed_port_fits (skip_spaces next)) ma out s e
round-Keeps str other next after skip h h' ma out s e = h' ma out s e

ok_same : (x y : MultiAddress) → ok x ≡ ok y → x ≡ y
ok_same x y e = cc

parse-Keeps : (str : List ℕ) (ts : List (List ℕ)) → Keeps str (parse ts)
unfolding parse
parse-Keeps str [] ma out s e = subst (IsSound str) (ok_same ma out e) s
parse-Keeps str (t ∷ []) ma out s e = subst (IsSound str) (ok_same ma out e) s
parse-Keeps str (t ∷ u ∷ ts) ma out s e =
    round-Keeps str (part_of t) u (parse ts) (parse (u ∷ ts)) (parse-Keeps str ts)
      (parse-Keeps str (u ∷ ts)) ma out s e

-- what the test after the loop adds
pub record IsComplete (str : List ℕ) (ma : MultiAddress) : Type 0 where
  pub sound : IsSound str ma
  pub port_set : 0 < ma.port
  pub has_ip : (ip : List ℕ) × (ma.ip ≡ some ip)

complete-IsComplete :
    (str : List ℕ) (ma out : MultiAddress)
    → IsSound str ma
    → complete ma ≡ ok out
    → IsComplete str out
complete-IsComplete str ma out s e = elim (Option-cases ma.ip) [
  | inl none_set ↦ absurd (let e' = ap (λ o. complete_with o ma) none_set in cc)
  | inr (ip, set) ↦ elim (Bool-cases (ma.port == 0)) [
    | inl zero_port ↦ absurd (
        let e' =
          ap (λ o. complete_with o ma) set ∙ if_true (ma.port == 0) failed (ok ma) zero_port in
        cc)
    | inr some_port ↦
        let e' : ok ma ≡ ok out =
          sym (ap (λ o. complete_with o ma) set ∙ if_false (ma.port == 0) failed (ok ma) some_port)
          ∙ e in
        subst (IsComplete str) (ok_same ma out e')
          (record { sound = s; port_set = ground arith; has_ip = (ip, set) })
  ]
]

completed-IsComplete :
    (str : List ℕ) (r : Res MultiAddress) (out : MultiAddress)
    → ((ma : MultiAddress) → r ≡ ok ma → IsSound str ma)
    → completed r ≡ ok out
    → IsComplete str out
completed-IsComplete str (ok ma) out h e = complete-IsComplete str ma out (h ma refl) e
completed-IsComplete str failed out h e = absurd (cc)
completed-IsComplete str undefined out h e = absurd (cc)
completed-IsComplete str Res.stuck out h e = absurd (cc)

-- An address that was made from a text, whatever the text, has the text in it, an IP, a port from 1
-- to 65535, and one of the two families.
pub new_from_string-IsComplete :
    (str : List ℕ) (ma : MultiAddress) → new_from_string str ≡ ok ma → IsComplete str ma
unfolding new_from_string
new_from_string-IsComplete [] ma e = absurd (cc)
new_from_string-IsComplete (b ∷ bs) ma e = elim (Bool-cases (b == slash)) [
  | inl h ↦
      completed-IsComplete (b ∷ bs) _ ma
        (λ out e'.
          parse-Keeps (b ∷ bs) (tokens slash (take 255 (b ∷ bs))) (blank (b ∷ bs)) out
            (record { raw = refl; family = inl refl; port_fits = omega arith }) e')
        (sym (if_true (b == slash) _ _ h) ∙ e)
  | inr h ↦ absurd (
      let parsed = completed (parse (tokens slash (take 255 (b ∷ bs))) (blank (b ∷ bs))) in
      let e' : failed ≡ ok ma = sym (if_false (b == slash) parsed failed h) ∙ e in cc)
]
