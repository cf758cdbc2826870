-- ===== src/Transport/Triple.antt =====
-- What a run over a reliable stream did, and the rules by which the protocols' runs are put together.
use c_libp2p.Base.{
  ℕ, ◌≡◌, ◌≢◌, refl, sym, ap, ◌∙◌, List, [], ◌∷◌, ◌++◌, some, subst, Bool, true, false,
}
use c_libp2p.Base.{append-nil, append_assoc, length, arith}
use c_libp2p.Transport.{Transport, Reliable, Res, ok, failed, M, ◌>>=◌, ◌>>◌, go_on, guard, attempt}
use c_libp2p.Transport.{write_full, took}

module _ {t : Transport} (rel : Reliable t) where
  open rel use {pending, sent, Usable}

  -- The run `out` from `s` returned `r`, left `rest` to be read and wrote `bytes`.
  pub record Did {A : Type 0} (s : t.State) (r : Res A) (rest bytes : List ℕ)
      (out : Res A × t.State) : Type 0 where
    pub value : out.0 ≡ r
    pub left : pending out.1 ≡ rest
    pub wrote : sent out.1 ≡ sent s ++ bytes
    pub usable : Usable out.1

  pub Did-bind :
      {A B : Type 0} (m : M t.State A) (f : A → M t.State B) {s : t.State} {a : A} {r : Res B}
      {rest rest' bytes bytes' : List ℕ}
      → Did s (ok a) rest bytes (m s)
      → (Usable (m s).1 → pending (m s).1 ≡ rest → Did (m s).1 r rest' bytes' (f a (m s).1))
      → Did s r rest' (bytes ++ bytes') ((m >>= f) s)
  Did-bind m f {s} {a} {r} {rest} {rest'} {bytes} {bytes'} d k =
      let next : Did (m s).1 r rest' bytes' (f a (m s).1) = k d.usable d.left in
      subst (λ x. Did s r rest' (bytes ++ bytes') (go_on x f (m s).1)) (sym d.value)
        (record {
          value = next.value;
          left = next.left;
          wrote = next.wrote ∙ ap (λ l. l ++ bytes') d.wrote ∙ append_assoc (sent s) bytes bytes';
          usable = next.usable;
        })

  pub Did-bytes :
      {A : Type 0} {s : t.State} {r : Res A} {rest bytes bytes' : List ℕ} {out : Res A × t.State}
      → bytes ≡ bytes'
      → Did s r rest bytes out
      → Did s r rest bytes' out
  Did-bytes {s = s} {r = r} {rest = rest} {out = out} e d = subst (λ l. Did s r rest l out) e d

  pub Did-pure :
      {A : Type 0} {s : t.State} {r : Res A} {rest : List ℕ}
      → Usable s
      → pending s ≡ rest
      → Did s r rest [] (r, s)
  Did-pure {s = s} u e = record {
    value = refl;
    left = e;
    wrote = sym (append-nil (sent s));
    usable = u;
  }

  pub Did-guard :
      {B : Type 0} {b : Bool} (k : M t.State B) {s : t.State} {r : Res B} {rest bytes : List ℕ}
      → b ≡ true
      → Did s r rest bytes (k s)
      → Did s r rest bytes ((guard b >> k) s)
  Did-guard k {s} {r} {rest} {bytes} e d =
      subst (λ x. Did s r rest bytes ((guard x >> k) s)) (sym e) d

  pub Did-guard_last :
      {b : Bool} {s : t.State} {rest : List ℕ}
      → b ≡ true
      → Usable s
      → pending s ≡ rest
      → Did s (ok tt) rest [] (guard b s)
  Did-guard_last {s = s} {rest = rest} e u left =
      subst (λ x. Did s (ok tt) rest [] (guard x s)) (sym e) (Did-pure u left)

  -- A failed test ends the run: nothing more is read or written.
  pub Did-guard_failed :
      {B : Type 0} {b : Bool} (k : M t.State B) {s : t.State} {rest : List ℕ}
      → b ≡ false
      → Usable s
      → pending s ≡ rest
      → Did s failed rest [] ((guard b >> k) s)
  Did-guard_failed k {s} {rest} e u left =
      subst (λ x. Did s failed rest [] ((guard x >> k) s)) (sym e) (Did-pure u left)

  pub Did-guard_last_failed :
      {b : Bool} {s : t.State} {rest : List ℕ}
      → b ≡ false
      → Usable s
      → pending s ≡ rest
      → Did s failed rest [] (guard b s)
  Did-guard_last_failed {s = s} {rest = rest} e u left =
      subst (λ x. Did s failed rest [] (guard x s)) (sym e) (Did-pure u left)

  pub Did-attempt :
      {A : Type 0} (m : M t.State A) {s : t.State} {r : Res A} {rest bytes : List ℕ}
      → Did s r rest bytes (m s)
      → Did s (ok tt) rest bytes (attempt m s)
  Did-attempt m d = record { value = refl; left = d.left; wrote = d.wrote; usable = d.usable }

  took_all : (bs : List ℕ) → bs ≢ [] → took (some (length bs)) (length bs) ≡ ok tt
  took_all [] ne = absurd (ne refl)
  took_all (b ∷ bs) ne = ground arith

  -- A reliable stream takes a write whole.
  pub Did-write :
      (s : t.State) (bs : List ℕ) {rest : List ℕ}
      → bs ≢ []
      → Usable s
      → pending s ≡ rest
      → Did s (ok tt) rest bs (write_full t bs s)
  unfolding write_full
  Did-write s bs ne u e = record {
    value = ap (λ n. took n (length bs)) (rel.write_all s bs u ne) ∙ took_all bs ne;
    left = rel.pending-write s bs u ∙ e;
    wrote = rel.sent-write s bs u ne;
    usable = rel.write-Usable s bs u;
  }
