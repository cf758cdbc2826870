-- ===== src/Secio/Choice.antt =====
-- libp2p_secio_select_best, of two lists of names.
use c_libp2p.Base.{
  ℕ, zero, suc, ◌≡◌, ◌≢◌, refl, sym, ap, ◌∙◌, subst, List, [], ◌∷◌, ◌++◌, ℤ, pos, negsuc,
}
use c_libp2p.Base.{true, false, ◌||◌, inl, inr, Bool-cases, bytes_eq, bytes_eq_refl, bytes_eq→eq}
use c_libp2p.Base.{All, arith, IsName, joined, joined-IsText, tokens-joined, c_string-text}
use c_libp2p.Base.{tokens}
use c_libp2p.Transport.{Res, ok, failed}
use c_libp2p.Secio.{comma, split_list, in_follower, first_match, select_best}

-- a name in a list of names
pub data Listed (name : List ℕ) : List (List ℕ) → Type 0 where
  here : {names : List (List ℕ)} → Listed name (name ∷ names)
  there : {other : List ℕ} {names : List (List ℕ)} → Listed name names → Listed name (other ∷ names)

-- The choice between a list that leads and one that follows: the first name of the one that the
-- other has too, and a failure where there is none.
pub data Best (lead follower : List (List ℕ)) : Res (List ℕ) → Type 0 where
  chosen :
      (before : List (List ℕ)) (name : List ℕ) (after : List (List ℕ))
      → lead ≡ before ++ name ∷ after
      → Listed name follower
      → All (λ other. ¬ Listed other follower) before
      → Best lead follower (ok name)
  none_shared : All (λ other. ¬ Listed other follower) lead → Best lead follower failed

in_follower-true :
    (name : List ℕ) (names : List (List ℕ)) → in_follower name names ≡ true → Listed name names
unfolding in_follower
in_follower-true name [] h = absurd (cc)
in_follower-true name (f ∷ names) h = elim (Bool-cases (bytes_eq name f)) [
  | inl e ↦ rw (bytes_eq→eq name f e) here
  | inr e ↦ there (in_follower-true name names (sym (ap (λ b. b || in_follower name names) e) ∙ h))
]

in_follower-Listed :
    (name : List ℕ) (names : List (List ℕ)) → Listed name names → in_follower name names ≡ true
unfolding in_follower
in_follower-Listed name [] m = elim m [ ]
in_follower-Listed name (f ∷ names) here =
    ap (λ b. b || in_follower name names) (bytes_eq_refl name)
in_follower-Listed name (f ∷ names) (there m) = ground (arith, in_follower-Listed name names m)

in_follower-false :
    (name : List ℕ) (names : List (List ℕ)) → in_follower name names ≡ false → ¬ Listed name names
in_follower-false name names h m = absurd (let e = in_follower-Listed name names m in cc)

further :
    (name : List ℕ) (lead follower : List (List ℕ)) (r : Res (List ℕ))
    → ¬ Listed name follower
    → Best lead follower r
    → Best (name ∷ lead) follower r
further name lead follower r absent (chosen before found after e m missed) =
    chosen (name ∷ before) found after (ap (λ l. name ∷ l) e) m (absent, missed)
further name lead follower r absent (none_shared missed) = none_shared (absent, missed)

pub first_match-Best :
    (lead follower : List (List ℕ)) → Best lead follower (first_match lead follower)
unfolding first_match
first_match-Best [] follower = none_shared tt
first_match-Best (name ∷ lead) follower = elim (Bool-cases (in_follower name follower)) [
  | inl e ↦ rw e (chosen [] name lead refl (in_follower-true name follower e) tt)
  | inr e ↦ rw e (
      further name lead follower _ (in_follower-false name follower e)
        (first_match-Best lead follower))
]

abbrev pub leader : ℤ → List (List ℕ) → List (List ℕ) → List (List ℕ)
leader (pos n) local remote = local
leader (negsuc n) local remote = remote

-- For an order other than 0, the name chosen is the first of the leader's list that the follower's
-- list has too, and the call fails exactly where the lists share no name. The local list leads
-- where the order is positive.
pub select_best-Best :
    (order : ℤ) (local remote : List ℕ)
    → order ≢ pos 0
    → Best
        (leader order (split_list local) (split_list remote))
        (leader order (split_list remote) (split_list local))
        (select_best order local remote)
unfolding select_best
select_best-Best (pos zero) local remote h = absurd (h refl)
select_best-Best (pos (suc n)) local remote h =
    first_match-Best (split_list local) (split_list remote)
select_best-Best (negsuc n) local remote h = first_match-Best (split_list remote) (split_list local)

-- Names that are not empty and have no comma and no NUL, written with commas between them, are
-- split into the same names again.
pub split_list-joined :
    (name : List ℕ) (names : List (List ℕ))
    → IsName comma name
    → All (IsName comma) names
    → split_list (joined comma name names) ≡ name ∷ names
unfolding split_list
split_list-joined name names h hs =
    ap (tokens comma) (
      c_string-text (joined comma name names)
        (joined-IsText comma (λ e. absurd (omega arith)) name names h hs))
    ∙ tokens-joined comma name names h hs

Listed-append :
    (name : List ℕ) (before after : List (List ℕ)) → Listed name (before ++ name ∷ after)
Listed-append name [] after = here
Listed-append name (other ∷ before) after = there (Listed-append name before after)

-- what is not a failure of the choice
abbrev pub IsShared : List (List ℕ) → List (List ℕ) → List ℕ → Type 0
IsShared lead follower name = Listed name lead × Listed name follower

not_missed :
    (name : List ℕ) (names follower : List (List ℕ))
    → Listed name names
    → Listed name follower
    → ¬ All (λ other. ¬ Listed other follower) names
not_missed name (n ∷ names) follower here m missed = missed.0 m
not_missed name (n ∷ names) follower (there l) m missed =
    not_missed name names follower l m missed.1
not_missed name [] follower l m missed = elim l [ ]

-- Where the lists share a name, the choice is a name that they share.
Best-IsShared :
    (lead follower : List (List ℕ)) (r : Res (List ℕ)) (name : List ℕ)
    → Best lead follower r
    → IsShared lead follower name
    → (chosen : List ℕ) × (r ≡ ok chosen) × IsShared lead follower chosen
Best-IsShared lead follower r name (chosen before found after e m missed) both =
    (found, refl, (subst (Listed found) (sym e) (Listed-append found before after), m))
Best-IsShared lead follower r name (none_shared missed) both =
    absurd (not_missed name lead follower both.0 both.1 missed)

pub select_best-IsShared :
    (order : ℤ) (local remote name : List ℕ)
    → order ≢ pos 0
    → IsShared (split_list local) (split_list remote) name
    → (chosen : List ℕ) × (select_best order local remote ≡ ok chosen)
      × IsShared (split_list local) (split_list remote) chosen
select_best-IsShared (pos n) local remote name h both =
    Best-IsShared (split_list local) (split_list remote) (select_best (pos n) local remote) name
      (select_best-Best (pos n) local remote h) both
select_best-IsShared (negsuc n) local remote name h both =
    let (found, e, m) =
      Best-IsShared (split_list remote) (split_list local) (select_best (negsuc n) local remote)
        name (select_best-Best (negsuc n) local remote h) (both.1, both.0) in
    (found, e, (m.1, m.0))
