-- ===== src/Transport/Run.antt =====
-- The rules of `Triple` for a run whose state holds more than the stream: `at n l` is the state
-- with the stream in state `n` and the rest in state `l`.
use c_libp2p.Base.{ℕ, suc, ◌≡◌, refl, sym, ap, ◌∙◌, subst, List, [], ◌++◌, Option, none, some}
use c_libp2p.Base.{Bool, true, append-nil, append_assoc}
use c_libp2p.Transport.{Transport, Reliable, Res, ok, failed, M, ◌>>=◌, ◌>>◌, go_on, guard}
use c_libp2p.Transport.{attempt, recover, recovered, forever, pure}

-- what a loop does with the result of a round
abbrev next_of : {S A : Type 0} → ℕ → M S (Option A) → Option A → M S A
next_of fuel body o = elim o [ none ↦ forever fuel body | some a ↦ pure a ]

module _ {t : Transport} (rel : Reliable t) {S L : Type 0} (at : t.State → L → S) where
  open rel use {pending, sent, Usable}

  -- The run `out`, from a state over the stream `n`, returned `r`, left `l` in the rest of the
  -- state and `rest` to be read, and wrote `bytes`.
  pub record Ran {A : Type 0} (n : t.State) (r : Res A) (l : L) (rest bytes : List ℕ)
      (out : Res A × S) : Type 0 where
    pub net : t.State
    pub result : out ≡ (r, at net l)
    pub left : pending net ≡ rest
    pub wrote : sent net ≡ sent n ++ bytes
    pub usable : Usable net

  pub Ran-bind :
      {A B : Type 0} (m : M S A) (f : A → M S B) {n : t.State} {l l1 l2 : L} {a : A} {r : Res B}
      {rest rest' bytes bytes' : List ℕ}
      → Ran n (ok a) l1 rest bytes (m (at n l))
      → ((n' : t.State) → Usable n' → pending n' ≡ rest → Ran n' r l2 rest' bytes' (f a (at n' l1)))
      → Ran n r l2 rest' (bytes ++ bytes') ((m >>= f) (at n l))
  Ran-bind m f {n} {l} {l1} {l2} {a} {r} {rest} {rest'} {bytes} {bytes'} d k =
      let next : Ran d.net r l2 rest' bytes' (f a (at d.net l1)) = k d.net d.usable d.left in
      record {
        net = next.net;
        result = ap (λ o. go_on o.0 f o.1) d.result ∙ next.result;
        left = next.left;
        wrote = next.wrote ∙ ap (λ x. x ++ bytes') d.wrote ∙ append_assoc (sent n) bytes bytes';
        usable = next.usable;
      }

  -- The same where the first part writes nothing.
  pub Ran-then :
      {A B : Type 0} (m : M S A) (f : A → M S B) {n : t.State} {l l1 l2 : L} {a : A} {r : Res B}
      {rest rest' bytes : List ℕ}
      → Ran n (ok a) l1 rest [] (m (at n l))
      → ((n' : t.State) → Usable n' → pending n' ≡ rest → Ran n' r l2 rest' bytes (f a (at n' l1)))
      → Ran n r l2 rest' bytes ((m >>= f) (at n l))
  Ran-then m f d k = Ran-bind m f d k

  pub Ran-stop :
      {A B : Type 0} (m : M S A) (f : A → M S B) {n : t.State} {l l1 : L} {rest bytes : List ℕ}
      → Ran n failed l1 rest bytes (m (at n l))
      → Ran n failed l1 rest bytes ((m >>= f) (at n l))
  Ran-stop m f d = record {
    net = d.net;
    result = ap (λ o. go_on o.0 f o.1) d.result;
    left = d.left;
    wrote = d.wrote;
    usable = d.usable;
  }

  pub Ran-pure :
      {A : Type 0} {n : t.State} {l : L} {r : Res A} {rest : List ℕ}
      → Usable n
      → pending n ≡ rest
      → Ran n r l rest [] (r, at n l)
  Ran-pure {n = n} u e = record {
    net = n;
    result = refl;
    left = e;
    wrote = sym (append-nil (sent n));
    usable = u;
  }

  pub Ran-bytes :
      {A : Type 0} {n : t.State} {l : L} {r : Res A} {rest bytes bytes' : List ℕ} {out : Res A × S}
      → bytes ≡ bytes'
      → Ran n r l rest bytes out
      → Ran n r l rest bytes' out
  Ran-bytes {n = n} {l = l} {r = r} {rest = rest} {out = out} e d =
      subst (λ x. Ran n r l rest x out) e d

  pub Ran-guard :
      {B : Type 0} {b : Bool} (k : M S B) {n : t.State} {s : S} {l : L} {r : Res B}
      {rest bytes : List ℕ}
      → b ≡ true
      → Ran n r l rest bytes (k s)
      → Ran n r l rest bytes ((guard b >> k) s)
  Ran-guard k {n} {s} {l} {r} {rest} {bytes} e d =
      subst (λ x. Ran n r l rest bytes ((guard x >> k) s)) (sym e) d

  pub Ran-recover :
      {A : Type 0} (m : M S A) {n : t.State} {l l1 : L} {a : A} {rest bytes : List ℕ}
      → Ran n (ok a) l1 rest bytes (m (at n l))
      → Ran n (ok (some a)) l1 rest bytes (recover m (at n l))
  Ran-recover m d = record {
    net = d.net;
    result = ap (λ o. (recovered o.0, o.1)) d.result;
    left = d.left;
    wrote = d.wrote;
    usable = d.usable;
  }

  pub Ran-attempt :
      {A : Type 0} (m : M S A) {n : t.State} {l l1 : L} {r : Res A} {rest bytes : List ℕ}
      → Ran n r l1 rest bytes (m (at n l))
      → Ran n (ok tt) l1 rest bytes (attempt m (at n l))
  Ran-attempt m d = record {
    net = d.net;
    result = ap (λ o. (ok tt, o.1)) d.result;
    left = d.left;
    wrote = d.wrote;
    usable = d.usable;
  }

  -- A loop that goes round once more, and one that ends.
  pub Ran-again :
      {A : Type 0} (fuel : ℕ) (body : M S (Option A)) {n : t.State} {l l1 l2 : L} {r : Res A}
      {rest rest' bytes bytes' : List ℕ}
      → Ran n (ok none) l1 rest bytes (body (at n l))
      → ((n' : t.State)
          → Usable n'
          → pending n' ≡ rest
          → Ran n' r l2 rest' bytes' (forever fuel body (at n' l1)))
      → Ran n r l2 rest' (bytes ++ bytes') (forever (suc fuel) body (at n l))
  unfolding forever
  Ran-again fuel body d k = Ran-bind body (next_of fuel body) d k

  pub Ran-return :
      {A : Type 0} (fuel : ℕ) (body : M S (Option A)) {n : t.State} {l l1 : L} {a : A}
      {rest bytes : List ℕ}
      → Ran n (ok (some a)) l1 rest bytes (body (at n l))
      → Ran n (ok a) l1 rest bytes (forever (suc fuel) body (at n l))
  unfolding forever
  Ran-return fuel body {bytes = bytes} d =
      Ran-bytes (append-nil bytes) (Ran-bind body (next_of fuel body) d λ n' u e. Ran-pure u e)

  pub Ran-broken :
      {A : Type 0} (fuel : ℕ) (body : M S (Option A)) {n : t.State} {l l1 : L} {rest bytes : List ℕ}
      → Ran n failed l1 rest bytes (body (at n l))
      → Ran n failed l1 rest bytes (forever (suc fuel) body (at n l))
  unfolding forever
  Ran-broken fuel body d = Ran-stop body (next_of fuel body) d
