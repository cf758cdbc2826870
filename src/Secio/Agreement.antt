-- ===== src/Secio/Agreement.antt =====
-- The two peers of a handshake choose the same algorithms.
use c_libp2p.Base.{ℕ, zero, suc, ◌≡◌, ◌≢◌, refl, ap, ◌∙◌, List, some, length}
use c_libp2p.Base.{ℤ, pos, negsuc, inl, inr, Option-cases}
use c_libp2p.Transport.{ok}
use c_libp2p.Secio.{Propose, Chosen, hash, determine_order, select_best, split_list}
use c_libp2p.Secio.{choose_algorithms}
use c_libp2p.Secio.Order.{
  opposite, opposite?, bytes_compare_swap, bytes_compare_same, bytes_compare-some,
}
use c_libp2p.Secio.Choice.{IsShared, select_best-IsShared}

select_best_swap :
    (order : ℤ) (local remote : List ℕ)
    → order ≢ pos 0
    → select_best (opposite order) remote local ≡ select_best order local remote
unfolding select_best
select_best_swap (pos zero) local remote h = absurd (h refl)
select_best_swap (pos (suc n)) local remote h = refl
select_best_swap (negsuc n) local remote h = refl

module _ (sha256 : List ℕ → List ℕ) where
  -- the two peers' hashes differ
  abbrev pub IsOrdered : Propose → Propose → Type 0
  IsOrdered a b = hash sha256 a.public_key b.rand ≢ hash sha256 b.public_key a.rand

  determine_order_swap :
      (a b : Propose) → determine_order sha256 a b ≡ opposite? (determine_order sha256 b a)
  unfolding determine_order
  determine_order_swap a b =
      bytes_compare_swap (hash sha256 b.public_key a.rand) (hash sha256 a.public_key b.rand) 32

  determine_order-nonzero :
      (a b : Propose) (order : ℤ)
      → ((bs : List ℕ) → length (sha256 bs) ≡ 32)
      → IsOrdered a b
      → determine_order sha256 a b ≡ some order
      → order ≢ pos 0
  unfolding determine_order hash
  determine_order-nonzero a b order size h e z = h (
      bytes_compare_same (hash sha256 a.public_key b.rand) (hash sha256 b.public_key a.rand) 32
        (size _) (size _) (e ∙ ap some z))

  order_some :
      (a b : Propose)
      → ((bs : List ℕ) → length (sha256 bs) ≡ 32)
      → (order : ℤ) × (determine_order sha256 b a ≡ some order)
  unfolding determine_order hash
  order_some a b size =
      bytes_compare-some (hash sha256 b.public_key a.rand) (hash sha256 a.public_key b.rand) 32
        (size _) (size _)

  choose_at :
      (a b : Propose) (s : Chosen) (order : ℤ)
      → determine_order sha256 b a ≡ some order
      → determine_order sha256 a b ≡ some (opposite order)
      → order ≢ pos 0
      → choose_algorithms sha256 b a s ≡ choose_algorithms sha256 a b s
  unfolding choose_algorithms
  choose_at a b s order e e' h =
      rw
        (
          e,
          e',
          select_best_swap order a.exchanges b.exchanges h,
          select_best_swap order a.ciphers b.ciphers h,
          select_best_swap order a.hashes b.hashes h,
        )
        refl

  -- Where the hash function gives 32 bytes and the hashes of the two peers differ, the negotiation
  -- of a peer that sent `a` and received `b` ends as that of one that sent `b` and received `a`,
  -- with the same result and the same curve, cipher and hash.
  pub choose_algorithms_agree :
      (a b : Propose) (s : Chosen)
      → ((bs : List ℕ) → length (sha256 bs) ≡ 32)
      → IsOrdered b a
      → choose_algorithms sha256 b a s ≡ choose_algorithms sha256 a b s
  unfolding choose_algorithms
  choose_algorithms_agree a b s size h = elim (Option-cases (determine_order sha256 b a)) [
    | inl e ↦ rw (e, determine_order_swap a b, e) refl
    | inr (order, e) ↦
        choose_at a b s order e (determine_order_swap a b ∙ ap opposite? e)
          (determine_order-nonzero b a order size h e)
  ]

  run_at :
      (a b : Propose) (s : Chosen) (order : ℤ) (curve cipher digest : List ℕ)
      → determine_order sha256 b a ≡ some order
      → select_best order a.exchanges b.exchanges ≡ ok curve
      → select_best order a.ciphers b.ciphers ≡ ok cipher
      → select_best order a.hashes b.hashes ≡ ok digest
      → choose_algorithms sha256 b a s
        ≡ (ok tt, record { curve = some curve; cipher = some cipher; hash = some digest })
  unfolding choose_algorithms
  run_at a b s order curve cipher digest e e1 e2 e3 = rw (e, e1, e2, e3) refl

  -- Where the hash function gives 32 bytes, the hashes of the two peers differ, and they share a
  -- curve, a cipher and a hash, the negotiation succeeds, with algorithms that both have offered.
  pub choose_algorithms_succeed :
      (a b : Propose) (s : Chosen) (curve cipher digest : List ℕ)
      → ((bs : List ℕ) → length (sha256 bs) ≡ 32)
      → IsOrdered b a
      → IsShared (split_list a.exchanges) (split_list b.exchanges) curve
      → IsShared (split_list a.ciphers) (split_list b.ciphers) cipher
      → IsShared (split_list a.hashes) (split_list b.hashes) digest
      → (c : Chosen) × (c1 : List ℕ) × (c2 : List ℕ) × (c3 : List ℕ) × (choose_algorithms sha256 b a
            s
          ≡ (ok tt, c))
        × (c ≡ record { curve = some c1; cipher = some c2; hash = some c3 })
        × IsShared (split_list a.exchanges) (split_list b.exchanges) c1
        × IsShared (split_list a.ciphers) (split_list b.ciphers) c2
        × IsShared (split_list a.hashes) (split_list b.hashes) c3
  choose_algorithms_succeed a b s curve cipher digest size h h1 h2 h3 =
      let (order, e) = order_some a b size in
      let nonzero = determine_order-nonzero b a order size h e in
      let (c1, e1, m1) = select_best-IsShared order a.exchanges b.exchanges curve nonzero h1 in
      let (c2, e2, m2) = select_best-IsShared order a.ciphers b.ciphers cipher nonzero h2 in
      let (c3, e3, m3) = select_best-IsShared order a.hashes b.hashes digest nonzero h3 in
      let c : Chosen = record { curve = some c1; cipher = some c2; hash = some c3 } in
      (c, c1, c2, c3, run_at a b s order c1 c2 c3 e e1 e2 e3, refl, m1, m2, m3)
