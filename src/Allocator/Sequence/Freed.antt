-- ===== src/Allocator/Sequence/Freed.antt =====
-- allocator.c: `memory_allocator_free_pages` of pages that were claimed one by one, in any order.
use pi_vos.Prelude.{
  ℕ, ◌+◌, ◌*◌, ◌^◌, ◌≤◌, ◌<◌, ◌≡◌, ◌≢◌, arith, ◌∙◌, sym, true, Option, some, ◌⊎◌, inl, inr,
  Bool-cases, ap,
}
use pi_vos.Allocator.{Allocator, free_pages}
use pi_vos.Allocator.Valid.{IsValid, Marks, is_claimed}
use pi_vos.Allocator.Multiple.{free_mark}
use pi_vos.Allocator.Address.{free_pages-Marks}
use pi_vos.Allocator.Sequence.{free_count, after, page_at, claims, claims_before}
use pi_vos.Allocator.Sequence.Taken.{page_at-free, claimed-after, after-claimed}

module _ {a : Allocator} (v : IsValid a) (count : ℕ) (few : count ≤ free_count a) where
  -- The claimed pages of `b` are those of `a` and those of the first `count` calls that are left.
  pub record Holds (left : ℕ → Type 0) (b : Allocator) : Type 0 where
    pub held_valid : IsValid b
    pub held_size : b.page_size ≡ a.page_size
    pub held_entries : b.entry_count ≡ a.entry_count
    pub keeps : (q : ℕ) → is_claimed a q ≡ true → is_claimed b q ≡ true
    pub no_more :
        (q : ℕ)
        → is_claimed b q ≡ true
        → (is_claimed a q ≡ true) ⊎ ((i : ℕ) × (i < count) × left i × (q ≡ page_at a i))

  pub Holds-all : (left : ℕ → Type 0) → ((i : ℕ) → i < count → left i) → Holds left (after a count)
  Holds-all left all =
      let s = claims_before a count v few in
      record {
        held_valid = s.after_valid;
        held_size = s.same_size;
        held_entries = s.same_entries;
        keeps = λ q e. claimed-after v count q few e;
        no_more = λ q e. elim (after-claimed v count q few e) [
          | inl first ↦ inl first
          | inr (i, h, same) ↦ inr (i, h, all i h, same)
        ];
      }

  -- Nothing is left: the same pages are claimed as at the start.
  pub Holds-none :
      (left : ℕ → Type 0) (b : Allocator)
      → ((i : ℕ) → i < count → ¬ left i)
      → Holds left b
      → (q : ℕ) → is_claimed b q ≡ is_claimed a q
  Holds-none left b none_left h q = elim (Bool-cases (is_claimed b q)) [
    | inl e ↦ elim (h.no_more q e) [
      | inl was ↦ e ∙ sym was
      | inr (i, less, l, same) ↦ absurd (none_left i less l)
    ]
    | inr e ↦ elim (Bool-cases (is_claimed a q)) [
      | inl was ↦ cc (h.keeps q was)
      | inr free ↦ e ∙ sym free
    ]
  ]

  -- One page is freed.
  freed :
      (left rest : ℕ → Type 0) (b : Allocator) (n : ℕ) (r : Option Allocator)
      → n < count
      → ((i : ℕ) → i < count → i ≢ n → left i → rest i)
      → Holds left b
      → (m : Marks (free_mark (page_at a n) 1) b r) → Holds rest (record b { bitmap = m.out })
  freed left rest b n r h on held m = record {
    held_valid = m.valid;
    held_size = held.held_size;
    held_entries = held.held_entries;
    keeps = λ q e.
        let other : q ≢ page_at a n =
          λ same. cc (page_at-free v n (omega arith), e, ap (is_claimed a) same) in
        ground (arith, m.pages q, held.keeps q e, other);
    no_more = λ q e.
        let other : q ≢ page_at a n = ground (arith, m.pages q, e) in
        let was : is_claimed b q ≡ true = ground (arith, m.pages q, e) in
        elim (held.no_more q was) [
          | inl first ↦ inl first
          | inr (i, less, l, same) ↦
              inr (i, less, on i less (λ at. other (same ∙ ap (page_at a) at)) l, same)
        ];
  }

  pub frees :
      (left rest : ℕ → Type 0) (b : Allocator) (n tag : ℕ)
      → n < count
      → a.page_size ≡ 4096
      → ((i : ℕ) → i < count → i ≢ n → left i → rest i)
      → Holds left b
      → (c : Allocator) × (free_pages b (page_at a n * 4096 + tag * 2 ^ 48) 1 ≡ some c)
        × Holds rest c
  frees left rest b n tag h size on held =
      let page : ℕ = page_at a n in
      let inside : page < a.entry_count * 64 = (claims a n v (omega arith)).inside in
      let size_b : b.page_size ≡ 4096 = held.held_size ∙ size in
      let small : page < 2 ^ 32 = omega (arith, inside, v.small) in
      let m =
        free_pages-Marks {a = b} page tag 1 held.held_valid
          (omega (arith, inside, held.held_entries)) (small, rw size_b (omega (arith, small)))
          (inr (omega arith)) in
      (
        record b { bitmap = m.out },
        ap (λ z. free_pages b (page * z + tag * 2 ^ 48) 1) (sym size_b) ∙ m.returns,
        freed left rest b n _ h on held m,
      )

  pub Holds-weaken :
      (left rest : ℕ → Type 0) (b : Allocator)
      → ((i : ℕ) → i < count → left i → rest i)
      → Holds left b
      → Holds rest b
  Holds-weaken left rest b on held = record {
    held_valid = held.held_valid;
    held_size = held.held_size;
    held_entries = held.held_entries;
    keeps = held.keeps;
    no_more = λ q e. elim (held.no_more q e) [
      | inl first ↦ inl first
      | inr (i, less, l, same) ↦ inr (i, less, on i less l, same)
    ];
  }
