-- ===== src/Allocator/Sequence/Taken.antt =====
-- allocator.c: which pages are claimed after calls of `memory_allocator_claim_page`.
use pi_vos.Prelude.{
  ℕ, zero, suc, ◌≤◌, ◌<◌, ◌≡◌, ◌≢◌, arith, ◌∙◌, sym, true, false, ◌⊎◌, inl, inr, Bool-cases, ap,
}
use pi_vos.Allocator.{Allocator}
use pi_vos.Allocator.Valid.{IsValid, is_claimed}
use pi_vos.Allocator.Sequence.{free_count, after, page_at, claims}

-- To split on whether `i` is below the last one.
upto : (i j : ℕ) → i ≤ suc j → (i ≡ suc j) ⊎ (i ≤ j)
upto i j h = omega arith

module _ {a : Allocator} (v : IsValid a) where
  -- A claimed page stays claimed.
  stays_claimed :
      (j i q : ℕ)
      → i ≤ j
      → j ≤ free_count a
      → is_claimed (after a i) q ≡ true
      → is_claimed (after a j) q ≡ true
  stays_claimed zero i q h few e =
      let z : 0 ≡ i = omega arith in ap (λ k. is_claimed (after a k) q) z ∙ e
  stays_claimed (suc j) i q h few e = elim (upto i j h) [
    | inl last ↦ ap (λ k. is_claimed (after a k) q) (sym last) ∙ e
    | inr before ↦
        let was = stays_claimed j i q before (omega arith) e in
        ground (arith, was, (claims a j v (omega arith)).marks q)
  ]

  pub page_at-claimed :
      (i j : ℕ) → i < j → j ≤ free_count a → is_claimed (after a j) (page_at a i) ≡ true
  page_at-claimed i j h few =
      stays_claimed j (suc i) (page_at a i) (omega arith) few
        (ground (arith, (claims a i v (omega arith)).marks (page_at a i)))

  -- No page is claimed twice.
  pub page_at-distinct : (i j : ℕ) → i < j → j < free_count a → page_at a i ≢ page_at a j
  page_at-distinct i j h few e =
      let was : is_claimed (after a j) (page_at a j) ≡ true =
        ap (is_claimed (after a j)) (sym e) ∙ page_at-claimed i j h (omega arith) in
      cc (was, (claims a j v few).was_free)

  -- Each claimed page was free at the start.
  pub page_at-free : (i : ℕ) → i < free_count a → is_claimed a (page_at a i) ≡ false
  unfolding after
  page_at-free i few = elim (Bool-cases (is_claimed a (page_at a i))) [
    | inl was ↦
        let now = stays_claimed i 0 (page_at a i) (omega arith) (omega arith) was in
        cc (now, (claims a i v few).was_free)
    | inr free ↦ free
  ]

  pub claimed-after :
      (n q : ℕ) → n ≤ free_count a → is_claimed a q ≡ true → is_claimed (after a n) q ≡ true
  unfolding after
  claimed-after n q few e = stays_claimed n 0 q (omega arith) few e

  -- No other page is claimed.
  pub after-claimed :
      (n q : ℕ)
      → n ≤ free_count a
      → is_claimed (after a n) q ≡ true
      → (is_claimed a q ≡ true) ⊎ ((i : ℕ) × (i < n) × (q ≡ page_at a i))
  unfolding after
  after-claimed zero q few e = inl e
  after-claimed (suc n) q few e = elim (Bool-cases (is_claimed (after a n) q)) [
    | inl was ↦ elim (after-claimed n q (omega arith) was) [
      | inl first ↦ inl first
      | inr (i, less, same) ↦ inr (i, omega arith, same)
    ]
    | inr was ↦
        let same : q ≡ page_at a n = ground (arith, e, was, (claims a n v (omega arith)).marks q) in
        inr (n, omega arith, same)
  ]
