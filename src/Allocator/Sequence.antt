-- ===== src/Allocator/Sequence.antt =====
-- allocator.c: calls of `memory_allocator_claim_page` one after another.
pub mod Taken
pub mod Freed
pub mod Low
use pi_vos.Prelude.{
  ℕ, zero, suc, ◌+◌, ◌-◌, ◌*◌, ◌/◌, ◌^◌, ◌≤◌, ◌<◌, ◌≡◌, ◌≢◌, refl, arith, ◌∙◌, sym, Bool, true,
  false, ◌==◌, if◌then◌else◌, none, some, ◌⊎◌, inl, inr, Bool-cases, ap, ap₂,
}
use native.Mathlib.Nat.{mul-div_cancel}
use mathlib.Core.Path.{subst}
use pi_vos.Allocator.{Bitmap, Allocator, null, claim_page}
use pi_vos.Allocator.Entry.{claimed}
use pi_vos.Allocator.Multiple.{claim_mark}
use pi_vos.Allocator.Valid.{IsValid, is_claimed, page_count}
use pi_vos.Allocator.Page.{ClaimsFirst, claim_page_lem}

-- The free pages among the first `n`.
unfoldable pub count_free : ℕ → Bitmap → ℕ
count_free zero b = 0
count_free (suc n) b = (if claimed b n then 0 else 1) + count_free n b

abbrev pub free_count : Allocator → ℕ
free_count a = count_free (page_count a) a.bitmap

pub count_free-agree :
    (n : ℕ) (b out : Bitmap)
    → ((q : ℕ) → q < n → claimed out q ≡ claimed b q)
    → count_free n out ≡ count_free n b
unfolding count_free
count_free-agree zero b out same = refl
count_free-agree (suc n) b out same =
    let rest = count_free-agree n b out (λ q h. same q (omega arith)) in
    rw (same n (omega arith), rest) refl

-- A claim of a free page leaves one fewer.
count_free-claim :
    (n page : ℕ) (b out : Bitmap)
    → page < n
    → claimed b page ≡ false
    → ((q : ℕ) → claimed out q ≡ claim_mark page 1 q (claimed b q))
    → count_free n out + 1 ≡ count_free n b
unfolding count_free
count_free-claim zero page b out h free marks = absurd (omega arith)
count_free-claim (suc n) page b out h free marks = elim (Bool-cases (page == n)) [
  | inl here ↦
      let e : page ≡ n = ground arith in
      let rest : count_free n out ≡ count_free n b =
        count_free-agree n b out (λ q less. ground (arith, marks q)) in
      let now : claimed out n ≡ true = ground (arith, marks n) in
      let was : claimed b n ≡ false = rw (← e) free in rw (now, was, rest) (omega arith)
  | inr other ↦
      let rest = count_free-claim n page b out (ground arith) free marks in
      let same : claimed out n ≡ claimed b n = ground (arith, marks n) in
      rw (same, ← rest) (omega arith)
]

pub count_free-full :
    (n : ℕ) (b : Bitmap) → ((q : ℕ) → q < n → claimed b q ≡ true) → count_free n b ≡ 0
unfolding count_free
count_free-full zero b all = refl
count_free-full (suc n) b all =
    rw (all n (omega arith), count_free-full n b (λ q h. all q (omega arith))) refl

-- The address that a call returns and the allocator it leaves.
abbrev claim_of : Allocator → ℕ × Allocator
claim_of a = elim (claim_page a) [ none ↦ (null, a) | some r ↦ r ]

-- The allocator after `n` calls, and the page that the next call claims.
unfoldable pub after : Allocator → ℕ → Allocator
after a zero = a
after a (suc n) = (claim_of (after a n)).1

unfoldable pub page_at : Allocator → ℕ → ℕ
page_at a n = (claim_of (after a n)).0 / a.page_size

-- The allocator `b` after `n` calls is valid, and differs from `a` in its bitmap only.
pub record IsAfter (a : Allocator) (n : ℕ) (b : Allocator) : Type 0 where
  pub after_valid : IsValid b
  pub same_size : b.page_size ≡ a.page_size
  pub same_entries : b.entry_count ≡ a.entry_count
  pub fewer_free : free_count b + n ≡ free_count a

-- Call `n` claims page `page_at a n`, which was free.
pub record Claims (a : Allocator) (n : ℕ) : Type 0 where
  pub so_far : IsAfter a n (after a n)
  pub returns : claim_page (after a n) ≡ some (page_at a n * a.page_size, after a (suc n))
  pub inside : page_at a n < page_count a
  pub was_free : is_claimed (after a n) (page_at a n) ≡ false
  pub first : (q : ℕ) → q < page_at a n → is_claimed (after a n) q ≡ true
  pub marks :
      (q : ℕ)
      → is_claimed (after a (suc n)) q ≡ claim_mark (page_at a n) 1 q (is_claimed (after a n) q)
  pub then_after : IsAfter a (suc n) (after a (suc n))

Claims-of_first :
    (a b c : Allocator) (n page : ℕ) (out : Bitmap)
    → IsAfter a n b
    → c ≡ record b { bitmap = out }
    → IsValid (record b { bitmap = out })
    → page < page_count b
    → is_claimed b page ≡ false
    → ((q : ℕ) → claimed out q ≡ claim_mark page 1 q (is_claimed b q))
    → IsAfter a (suc n) c
Claims-of_first a b c n page out s e valid inside free marks =
    let fewer = count_free-claim (page_count b) page b.bitmap out inside free marks in
    subst (IsAfter a (suc n)) (sym e) (record {
      after_valid = valid;
      same_size = s.same_size;
      same_entries = s.same_entries;
      fewer_free = omega (arith, s.fewer_free, fewer);
    })

Claims-next : (a : Allocator) (n : ℕ) → IsAfter a n (after a n) → n < free_count a → Claims a n
unfolding after page_at
Claims-next a n s few = elim (claim_page_lem s.after_valid) [
  | inl (e, all) ↦
      absurd (
        omega
          (arith, s.fewer_free, count_free-full (page_count (after a n)) (after a n).bitmap all))
  | inr c ↦
      let size : (after a n).page_size ≡ a.page_size = s.same_size in
      let next : after a (suc n) ≡ record (after a n) { bitmap = c.out } =
        rw (after, claim_of, c.returns) refl in
      let at : page_at a n ≡ c.page =
        rw (page_at, claim_of, c.returns, size)
          (mul-div_cancel c.page (omega (arith, size, s.after_valid.page_pos))) in
      record {
        so_far = s;
        returns =
            c.returns ∙ ap₂ (λ p b. some (p, b)) (ap₂ (λ x y. x * y) (sym at) size) (sym next);
        inside = rw at (omega (arith, c.inside, s.same_entries));
        was_free = rw at c.free;
        first = λ q h. c.first q (omega (arith, at));
        marks = λ q. ap (λ b. is_claimed b q) next ∙ rw at (c.pages q);
        then_after =
            Claims-of_first a (after a n) (after a (suc n)) n c.page c.out s next c.valid c.inside
              c.free c.pages;
      }
]

pub claims_before : (a : Allocator) (n : ℕ) → IsValid a → n ≤ free_count a → IsAfter a n (after a n)
unfolding after
claims_before a zero v few = record {
  after_valid = v;
  same_size = refl;
  same_entries = refl;
  fewer_free = omega arith;
}
claims_before a (suc n) v few =
    (Claims-next a n (claims_before a n v (omega arith)) (omega arith)).then_after

-- While pages are free, each call claims one.
pub claims : (a : Allocator) (n : ℕ) → IsValid a → n < free_count a → Claims a n
claims a n v few = Claims-next a n (claims_before a n v (omega arith)) few
