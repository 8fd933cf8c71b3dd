-- ===== src/Allocator/Page.antt =====
-- `memory_allocator_claim_page` finds the first free page.
use pi_vos.Prelude.{
  ℕ, zero, suc, ◌+◌, ◌-◌, ◌*◌, ◌/◌, ◌%◌, ◌^◌, ◌≤◌, ◌<◌, ◌≡◌, ◌≢◌, refl, arith, true, false, ◌==◌,
  ==_iff, Option, some, get_or, get_elem?-eq-get_or, ◌⊎◌, inl, inr, Bool-cases,
}
use native.Mathlib.Nat.{mul-le-mul_right, pow-suc}
use pi_vos.Word.{u32, u64, not64, test_bit}
use pi_vos.Word.Bits.{test_bit_complement, test_bit_ones}
use pi_vos.Allocator.{
  Bitmap, Allocator, page_full, null, clz, claim_page, claim_page_loop, claim_specific_page, ◌>>=◌,
}
use pi_vos.Allocator.Entry.{claimed}
use pi_vos.Allocator.Multiple.{claim_mark}
use pi_vos.Allocator.Valid.{IsValid, is_claimed, page_count}
use pi_vos.Allocator.Range.{claim_specific_page-Marks}

-- `clz k w` is the number of zeros at the top of the `k` low bits.
record IsTop (k w : ℕ) : Type 0 where
  at : test_bit w (k - 1 - clz k w) ≡ true
  in_word : clz k w < k
  above : (i : ℕ) → i < k → k - 1 - clz k w < i → test_bit w i ≡ false

-- To split on whether `i` is the position `k`.
below_suc : (i k : ℕ) → i < suc k → (i ≡ k) ⊎ (i < k)
below_suc i k h = omega arith

clz_cases : (k w : ℕ) → ((i : ℕ) → i < k → test_bit w i ≡ false) ⊎ IsTop k w
unfolding clz
clz_cases zero w = inl (λ i h. absurd (omega arith))
clz_cases (suc k) w = elim (Bool-cases (test_bit w k)) [
  | inl top ↦
      let e : clz (suc k) w ≡ 0 = rw top refl in
      let d : suc k - 1 - 0 ≡ k = omega arith in
      inr (record {
        at = rw (e, d) top;
        in_word = omega (arith, e);
        above = λ i h l. absurd (omega (arith, e));
      })
  | inr none_here ↦
      let e : clz (suc k) w ≡ suc (clz k w) = rw none_here refl in
      let d : suc k - 1 - suc (clz k w) ≡ k - 1 - clz k w = omega arith in
      elim (clz_cases k w) [
        | inl below ↦ inl (λ i h. elim (below_suc i k h) [
          | inl same ↦ rw same none_here
          | inr less ↦ below i less
        ])
        | inr t ↦ inr (record {
          at = rw (e, d) t.at;
          in_word = omega (arith, e, t.in_word);
          above = λ i h l. elim (below_suc i k h) [
            | inl same ↦ rw same none_here
            | inr less ↦ t.above i less (omega (arith, e, d))
          ];
        })
      ]
]

-- A word with no bit set is zero.
eq-zero_of_bits : (k w : ℕ) → w < 2 ^ k → ((i : ℕ) → i < k → test_bit w i ≡ false) → w ≡ 0
unfolding test_bit
eq-zero_of_bits zero w h bits = omega arith
eq-zero_of_bits (suc k) w h bits =
    let rest : w / 2 ≡ 0 =
      eq-zero_of_bits k (w / 2) (omega (arith, pow-suc 2 k)) (λ i l. bits (suc i) (omega arith)) in
    ground (arith, bits 0, rest)

-- In an entry that is not full, `clz` of the complement is the first free position.
record FirstZero (w : ℕ) : Type 0 where
  pos_in : clz 64 (not64 w) < 64
  pos_free : test_bit w (63 - clz 64 (not64 w)) ≡ false
  before : (p : ℕ) → p < clz 64 (not64 w) → test_bit w (63 - p) ≡ true

FirstZero-of_not_full : (w : ℕ) → w < 2 ^ 64 → w ≢ page_full → FirstZero w
FirstZero-of_not_full w h ne = elim (clz_cases 64 (not64 w)) [
  | inl empty ↦ absurd (ne (omega (arith, eq-zero_of_bits 64 (not64 w) (omega arith) empty)))
  | inr t ↦ record {
    pos_in = t.in_word;
    pos_free = ground (arith, t.at, t.in_word, test_bit_complement (63 - clz 64 (not64 w)) 64 w);
    before = λ p l. ground (arith, t.above (63 - p), t.in_word, test_bit_complement (63 - p) 64 w);
  }
]

-- Every position of a full entry is claimed.
test_bit_full : (i : ℕ) → i < 64 → test_bit page_full i ≡ true
test_bit_full i h = ground (arith, test_bit_ones i 64)

-- `result` is the address of the first free page of `a`, with that page claimed and no other
-- changed.
pub record ClaimsFirst (a : Allocator) (result : Option (ℕ × Allocator)) : Type 0 where
  pub page : ℕ
  pub out : Bitmap
  pub inside : page < page_count a
  pub free : is_claimed a page ≡ false
  pub first : (other : ℕ) → other < page → is_claimed a other ≡ true
  pub returns : result ≡ some (page * a.page_size, record a { bitmap = out })
  pub valid : IsValid (record a { bitmap = out })
  pub pages : (other : ℕ) → claimed out other ≡ claim_mark page 1 other (is_claimed a other)

abbrev pub AllClaimed : Allocator → ℕ → Type 0
AllClaimed a n = (page : ℕ) → page < n → is_claimed a page ≡ true

entry_cases : (page idx : ℕ) → page < (idx + 1) * 64 → (page < idx * 64) ⊎ (page / 64 ≡ idx)
entry_cases page idx h = omega arith

-- The pages of a full entry are claimed.
AllClaimed-of_full :
    (a : Allocator) (idx : ℕ)
    → AllClaimed a (idx * 64)
    → get_or a.bitmap idx 0 ≡ page_full
    → AllClaimed a ((idx + 1) * 64)
AllClaimed-of_full a idx lower is_full page h = elim (entry_cases page idx h) [
  | inl earlier ↦ lower page earlier
  | inr here ↦ rw (here, is_full) (test_bit_full (63 - page % 64) (omega arith))
]

page_addr_fits :
    {a : Allocator} (page : ℕ)
    → IsValid a
    → page < page_count a
    → u64 (page * a.page_size) ≡ page * a.page_size
page_addr_fits {a} page v h =
    let m : suc page * a.page_size ≤ a.entry_count * 64 * a.page_size =
      mul-le-mul_right a.page_size h in
    omega (arith, v.span, m)

ClaimsFirst-of_entry :
    {a : Allocator} (idx : ℕ)
    → IsValid a
    → idx < a.entry_count
    → AllClaimed a (idx * 64)
    → FirstZero (get_or a.bitmap idx 0)
    → ClaimsFirst a (
        let page_number = u32 (idx * 64 + clz 64 (not64 (get_or a.bitmap idx 0))) in
        claim_specific_page a page_number >>= λ a'. some (u64 (page_number * a.page_size), a'))
ClaimsFirst-of_entry {a} idx v h lower z =
    let pos = clz 64 (not64 (get_or a.bitmap idx 0)) in
    let page = idx * 64 + pos in
    let inside : page < page_count a = omega (arith, z.pos_in) in
    let e : u32 page ≡ page = omega (arith, v.small) in
    let m = claim_specific_page-Marks v page inside in
    let entry : page / 64 ≡ idx = omega (arith, z.pos_in) in
    let position : page % 64 ≡ pos = omega (arith, z.pos_in) in
    rw (e, m.returns, page_addr_fits page v inside)
      (record {
        page = page;
        out = m.out;
        inside = inside;
        free = rw (entry, position) z.pos_free;
        first = λ other l. elim (entry_cases other idx (omega (arith, z.pos_in))) [
          | inl earlier ↦ lower other earlier
          | inr here ↦ rw here (z.before (other % 64) (omega (arith, here)))
        ];
        returns = refl;
        valid = m.valid;
        pages = m.pages;
      })

claim_page_loop_lem :
    (left idx : ℕ) {a : Allocator}
    → IsValid a
    → idx + left ≡ a.entry_count
    → AllClaimed a (idx * 64)
    → ((claim_page_loop left a idx ≡ some (null, a)) × AllClaimed a (page_count a))
      ⊎ ClaimsFirst a (claim_page_loop left a idx)
unfolding claim_page_loop
claim_page_loop_lem zero idx {a} v e full =
    let d : idx ≡ a.entry_count = omega arith in inl (refl, rw (← d) full)
claim_page_loop_lem (suc left) idx {a} v e full =
    let word = get_or a.bitmap idx 0 in
    let got = get_elem?-eq-get_or a.bitmap idx 0 (omega (arith, v.size)) in
    elim (Bool-cases (word == page_full)) [
      | inl is_full ↦
          rw (got, is_full)
            (claim_page_loop_lem left (idx + 1) v (omega arith)
              (AllClaimed-of_full a idx full ((==_iff word page_full).0 is_full)))
      | inr not_full ↦ inr (
          rw (got, not_full)
            (ClaimsFirst-of_entry idx v (omega arith) full
              (FirstZero-of_not_full word (v.words idx) (λ same. ground (arith, not_full, same)))))
    ]

-- On a valid allocator `claim_page` returns NULL and changes nothing, and then every page is
-- claimed; or it claims the first free page, the pages before it all being claimed, changes no
-- other page, keeps the invariant, and returns the page's address. It never faults.
pub claim_page_lem :
    {a : Allocator}
    → IsValid a
    → ((claim_page a ≡ some (null, a)) × AllClaimed a (page_count a)) ⊎ ClaimsFirst a (claim_page a)
unfolding claim_page
claim_page_lem {a} v =
    claim_page_loop_lem a.entry_count 0 v (omega arith) (λ page h. absurd (omega arith))
