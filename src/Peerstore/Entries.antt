-- ===== src/Peerstore/Entries.antt =====
-- Looking a peer up after the list of entries has changed.
use c_libp2p.Base.{ℕ, ◌≡◌, ◌≢◌, refl, sym, ap, ◌∙◌, List, [], ◌∷◌, ◌++◌, none, some, length}
use c_libp2p.Base.{true, false, if◌then◌else◌, arith, Bool-cases, inl, inr}
use c_libp2p.Base.{bytes_eq_refl, bytes_eq→eq, ==_refl}
use c_libp2p.Base.{if_true, if_false}
use c_libp2p.Peerstore.{Addresses, Peer, is_id, Store, find, modify}

pub is_id_self : (id : List ℕ) → is_id id id ≡ true
unfolding is_id
is_id_self id = rw (==_refl (length id), bytes_eq_refl id) refl

pub is_id-same : (id id' : List ℕ) → is_id id id' ≡ true → id ≡ id'
unfolding is_id
is_id-same id id' h = bytes_eq→eq id id' (ground arith)

pub is_id-other : (id id' : List ℕ) → id ≢ id' → is_id id id' ≡ false
is_id-other id id' ne = elim (Bool-cases (is_id id id')) [
  | inl same ↦ absurd (ne (is_id-same id id' same))
  | inr other ↦ other
]

module _ {ℓ} {A : Type ℓ} where
  some-none : (x : A) → some x ≢ none
  some-none x h = cc

  pub some_same : (x y : A) → some x ≡ some y → x ≡ y
  some_same x y h = cc

module _ (l : Addresses) where
  open l use {Address}

  pub id-find : (id : List ℕ) (ps : Store l) (q : Peer Address) → find l id ps ≡ some q → id ≡ q.id
  id-find id [] q h = absurd (cc)
  id-find id (p ∷ ps) q h = elim (Bool-cases (is_id id p.id)) [
    | inl this ↦
        is_id-same id p.id this
        ∙ ap (λ (p : Peer Address). p.id)
            (some_same p q (sym (if_true (is_id id p.id) _ _ this) ∙ h))
    | inr other ↦ id-find id ps q (sym (if_false (is_id id p.id) _ _ other) ∙ h)
  ]

  pub find-append_found :
      (id : List ℕ) (ps qs : Store l) (q : Peer Address)
      → find l id ps ≡ some q
      → find l id (ps ++ qs) ≡ some q
  find-append_found id [] qs q h = absurd (cc)
  find-append_found id (p ∷ ps) qs q h = elim (Bool-cases (is_id id p.id)) [
    | inl this ↦ rw this (sym (if_true (is_id id p.id) _ _ this) ∙ h)
    | inr other ↦
        rw other (find-append_found id ps qs q (sym (if_false (is_id id p.id) _ _ other) ∙ h))
  ]

  pub find-append_new :
      (id : List ℕ) (ps qs : Store l) → find l id ps ≡ none → find l id (ps ++ qs) ≡ find l id qs
  find-append_new id [] qs h = refl
  find-append_new id (p ∷ ps) qs h = elim (Bool-cases (is_id id p.id)) [
    | inl this ↦ absurd (some-none p (sym (if_true (is_id id p.id) _ _ this) ∙ h))
    | inr other ↦ rw other (find-append_new id ps qs (sym (if_false (is_id id p.id) _ _ other) ∙ h))
  ]

  pub find-modify :
      (id : List ℕ) (f : Peer Address → Peer Address) (ps : Store l) (q : Peer Address)
      → ((p : Peer Address) → (f p).id ≡ p.id)
      → find l id ps ≡ some q
      → find l id (modify l id f ps) ≡ some (f q)
  find-modify id f [] q keeps h = absurd (cc)
  find-modify id f (p ∷ ps) q keeps h = elim (Bool-cases (is_id id p.id)) [
    | inl this ↦ rw this (
        if_true (is_id id (f p).id) _ _ (ap (is_id id) (keeps p) ∙ this)
        ∙ ap (λ p. some (f p)) (some_same p q (sym (if_true (is_id id p.id) _ _ this) ∙ h)))
    | inr other ↦ rw other (
        if_false (is_id id p.id) _ _ other
        ∙ find-modify id f ps q keeps (sym (if_false (is_id id p.id) _ _ other) ∙ h))
  ]

  pub find-modify_other :
      (id id' : List ℕ) (f : Peer Address → Peer Address) (ps : Store l)
      → ((p : Peer Address) → (f p).id ≡ p.id)
      → id' ≢ id
      → find l id' (modify l id f ps) ≡ find l id' ps
  find-modify_other id id' f [] keeps ne = refl
  find-modify_other id id' f (p ∷ ps) keeps ne = elim (Bool-cases (is_id id p.id)) [
    | inl this ↦
        let differ : id' ≢ p.id = λ e. ne (e ∙ sym (is_id-same id p.id this)) in
        rw this (
          if_false (is_id id' (f p).id) _ _ (ap (is_id id') (keeps p) ∙ is_id-other id' p.id differ)
          ∙ sym (if_false (is_id id' p.id) _ _ (is_id-other id' p.id differ)))
    | inr other ↦
        rw other
          (ap (λ o. if is_id id' p.id then some p else o) (find-modify_other id id' f ps keeps ne))
  ]
