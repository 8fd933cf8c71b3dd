-- ===== src/Allocator/Search/Total.antt =====
-- The search ends within its fuel, and what `claim_pages` returns.
use native.Mathlib.Nat.{mul-le-mul_right, one-le-pow}
use pi_vos.Prelude.{
  ℕ, zero, suc, ◌+◌, ◌-◌, ◌*◌, ◌/◌, ◌%◌, ◌^◌, ◌≤◌, ◌<◌, ◌≡◌, refl, arith, true, false, ◌&&◌, min,
  get_elem?-eq-get_or, ◌==◌, ==_iff, Bool-cases, ◌⊎◌, inl, inr, length, Option, some,
}
use pi_vos.Word.{u32, sub32}
use pi_vos.Allocator.{Bitmap, Allocator, null, get_addres}
use pi_vos.Allocator.Entry.{claimed}
use pi_vos.Allocator.Valid.{IsValid, is_claimed, page_count}
use pi_vos.Allocator.Multiple.{claim_mark}
use pi_vos.Allocator.Range.{claim_multiple_pages-Marks}
use pi_vos.Allocator.Search.{
  Search, found, exhausted, skip, search_loop, running, search_fuel, claim_pages, claim_found,
  finish,
}
use pi_vos.Allocator.Search.Bounds.{IsSkip, skip-IsSkip, looked, claimed_of_nonzero}
use pi_vos.Allocator.Search.Sound.{IsBlocked, IsFound, InSearch, InSearch-free, InSearch-taken}

-- The search finds a page as promised, or there is none that every look at the bitmap would pass.
Outcome : (b : Bitmap) (entry_count number k : ℕ) → Search → Type 0
Outcome b entry_count number k r =
    ((page : ℕ) × (r ≡ found page) × IsFound b entry_count number (2 ^ k) page)
    ⊎ ((r ≡ exhausted)
        × ((t : ℕ) → t * 2 ^ k + number ≤ entry_count * 64 → IsBlocked b number (t * 2 ^ k)))

-- How far the search still is from the end.
abbrev measure : ℕ → ℕ → ℕ → ℕ
measure entry_count cp idx = (entry_count * 64 - cp) * (entry_count + 1) + (entry_count - idx)

measure_taken :
    (e cp step idx idx' : ℕ)
    → cp < e * 64
    → 0 < step
    → measure e (cp + step) idx' < measure e cp idx
measure_taken e cp step idx idx' h pos =
    let m : suc (e * 64 - (cp + step)) * (e + 1) ≤ (e * 64 - cp) * (e + 1) =
      mul-le-mul_right (e + 1)
        (let h : suc (e * 64 - (cp + step)) ≤ e * 64 - cp = omega arith in h) in
    omega (arith, m)

step_bounds :
    (k checked step : ℕ) → IsSkip (2 ^ k) checked step → (0 < step) × (step ≤ checked + 2 ^ k)
step_bounds k checked step s =
    let pos = one-le-pow k 2 (omega arith) in
    elim s.last [
      | inl zero_times ↦
          (let z : s.times * 2 ^ k ≡ 0 = rw zero_times (omega arith) in
            (omega (arith, s.whole, pos), omega (arith, s.whole, z)))
      | inr less ↦ (omega (arith, s.whole, pos), omega (arith, s.whole, less))
    ]

module _ {b : Bitmap} {e number k : ℕ} (size : length b ≡ e) (some_pages : 0 < number) (hk : k < 32)
    (room : e * 64 + number + 2 ^ k ≤ 2 ^ 32) where
  finish-Outcome :
      {cp o left idx : ℕ}
      → InSearch b e number k cp o left idx
      → running e left idx ≡ false
      → Outcome b e number k (finish cp left)
  unfolding Outcome
  finish-Outcome {cp} {o} {left = zero} {idx} v h = inl (
    cp,
    refl,
    record {
      times = v.times;
      aligned = v.aligned;
      inside = omega (arith, v.progress);
      low_free = let all : number - 0 ≡ number = omega arith in rw all at v.low_free;
    },
  )
  finish-Outcome {cp} {o} {left = suc l} {idx} v h =
      let past : e ≤ idx = ground arith in
      inr (ground arith, λ t fits. v.passed t (omega (arith, v.spot (omega arith), v.left_le)))

  search_loop-Outcome :
      (fuel cp o left idx : ℕ)
      → InSearch b e number k cp o left idx
      → measure e cp idx < fuel
      → Outcome b e number k (search_loop b e number (2 ^ k) fuel cp o left idx)
  unfolding search_loop
  search_loop-Outcome zero cp o left idx v m = absurd (omega arith)
  search_loop-Outcome (suc fuel) cp o left idx v m = elim (Bool-cases (running e left idx)) [
    | inr done ↦ rw done (finish-Outcome v done)
    | inl goes ↦
        let more : 0 < left = ground arith in
        let inside : idx < e = ground arith in
        let got = get_elem?-eq-get_or b idx 0 (omega (arith, size)) in
        let n = min (64 - o) left in
        elim (Bool-cases (looked b idx n o == 0)) [
          | inl free ↦
              rw (goes, got, free)
                (let e_left : sub32 left n ≡ left - n = omega (arith, v.left_le) in
                  let e_idx : u32 (idx + 1) ≡ idx + 1 = omega arith in
                  rw (e_left, e_idx)
                    (search_loop-Outcome fuel cp 0 (left - n) (idx + 1)
                      (InSearch-free v more inside ((==_iff (looked b idx n o) 0).0 free))
                      (omega arith)))
          | inr taken ↦
              rw (goes, got, taken)
                (let e_checked : sub32 number left ≡ number - left = omega (arith, v.left_le) in
                  let s = skip-IsSkip k (number - left) hk (omega arith) in
                  let (pos, short) =
                    step_bounds k (number - left) (skip (number - left) (2 ^ k)) s in
                  let below : cp < e * 64 = omega (arith, v.spot more, v.offset_in) in
                  let e_next : u32 (cp + skip (number - left) (2 ^ k))
                      ≡ cp + skip (number - left) (2 ^ k) =
                    omega (arith, short, below) in
                  rw (e_checked, e_next)
                    (search_loop-Outcome fuel _ _ number _
                      (InSearch-taken v more inside s (λ z. ground (arith, taken, z)))
                      (omega (
                        arith,
                        measure_taken e cp (skip (number - left) (2 ^ k)) idx
                            ((cp + skip (number - left) (2 ^ k)) / 64) below pos,
                      ))))
        ]
  ]

-- `result` is the address of a run of pages as the search promises, with those pages claimed and
-- no other changed.
pub record ClaimsRun (a : Allocator) (number align : ℕ) (result : Option (ℕ × Allocator))
    : Type 0 where
  pub page : ℕ
  pub out : Bitmap
  pub run : IsFound a.bitmap a.entry_count number align page
  pub returns : result ≡ some (page * a.page_size, record a { bitmap = out })
  pub valid : IsValid (record a { bitmap = out })
  pub pages : (other : ℕ) → claimed out other ≡ claim_mark page number other (is_claimed a other)

start-InSearch : (b : Bitmap) (e number k : ℕ) → InSearch b e number k 0 0 number 0
start-InSearch b e number k = record {
  offset_in = omega arith;
  left_le = omega arith;
  reach = omega arith;
  spot = λ h. omega arith;
  times = 0;
  aligned = omega arith;
  low_free = λ page l h low. absurd (omega arith);
  passed = λ t h. absurd (omega arith);
  progress = inl refl;
}

get_addres_lem :
    {a : Allocator} (page number : ℕ)
    → IsValid a
    → 0 < number
    → page + number ≤ page_count a
    → get_addres a page ≡ page * a.page_size
unfolding get_addres
get_addres_lem {a} page number v pos h =
    let m : suc page * a.page_size ≤ a.entry_count * 64 * a.page_size =
      mul-le-mul_right a.page_size (let h : suc page ≤ a.entry_count * 64 = omega arith in h) in
    omega (arith, v.span, m)

enough_fuel : (e : ℕ) → measure e 0 0 < search_fuel e
enough_fuel e = let z : e * 64 - 0 ≡ e * 64 = omega arith in rw z (omega arith)

claim_found_lem :
    {a : Allocator} (number k : ℕ) (r : Search)
    → IsValid a
    → 0 < number
    → Outcome a.bitmap a.entry_count number k r
    → ((claim_found a number r ≡ some (null, a))
        × ((t : ℕ) → t * 2 ^ k + number ≤ page_count a → IsBlocked a.bitmap number (t * 2 ^ k)))
      ⊎ ClaimsRun a number (2 ^ k) (claim_found a number r)
unfolding claim_found Outcome
claim_found_lem {a} number k r v pos (inr (e, none_free)) = inl (rw e refl, none_free)
claim_found_lem {a} number k r v pos (inl (page, e, run)) =
    let m = claim_multiple_pages-Marks v page number run.inside in
    inr (
      rw (e, m.returns, get_addres_lem page number v pos run.inside)
        (record {
          page = page;
          out = m.out;
          run = run;
          returns = refl;
          valid = m.valid;
          pages = m.pages;
        }))

-- On a valid allocator, for `number > 0` pages at a power of two below `2 ^ 32`, where the number of the
-- allocator's pages, `number` and that power add up to at most `2 ^ 32` (not one page at alignment one,
-- which goes to `claim_page`), `claim_pages` ends and does not fault. It returns NULL and changes
-- nothing, and then every aligned run of `number` pages has a claimed page; or it returns the
-- address of an aligned run inside the bitmap in which no page of a lower half of an entry was
-- claimed, with exactly that run claimed in addition, and keeps the invariant.
pub claim_pages_lem :
    {a : Allocator} (number k : ℕ)
    → IsValid a
    → 0 < number
    → ((number == 1) && (2 ^ k == 1)) ≡ false
    → k < 32
    → page_count a + number + 2 ^ k ≤ 2 ^ 32
    → ((claim_pages a number (2 ^ k) ≡ some (null, a))
        × ((t : ℕ) → t * 2 ^ k + number ≤ page_count a → IsBlocked a.bitmap number (t * 2 ^ k)))
      ⊎ ClaimsRun a number (2 ^ k) (claim_pages a number (2 ^ k))
unfolding claim_pages
claim_pages_lem {a} number k v pos several hk room = rw several (
    claim_found_lem number k _ v pos (
      search_loop-Outcome v.size pos hk room (search_fuel a.entry_count) 0 0 number 0
        (start-InSearch a.bitmap a.entry_count number k) (enough_fuel a.entry_count)))

search_loop-done :
    (b : Bitmap) (e number align fuel cp o left idx : ℕ)
    → running e left idx ≡ false
    → search_loop b e number align fuel cp o left idx ≡ finish cp left
unfolding search_loop
search_loop-done b e number align zero cp o left idx h = rw h refl
search_loop-done b e number align (suc fuel) cp o left idx h = rw h refl

-- The first look of a request for at most 32 pages finds nothing claimed.
search_loop_small :
    (b : Bitmap) (e number align fuel : ℕ)
    → length b ≡ e
    → 0 < e
    → 0 < number
    → number ≤ 32
    → search_loop b e number align (suc fuel) 0 0 number 0 ≡ found 0
unfolding search_loop
search_loop_small b e number align fuel size entries pos small =
    let goes : running e number 0 ≡ true = ground arith in
    let got = get_elem?-eq-get_or b 0 0 (omega (arith, size)) in
    let n : min (64 - 0) number ≡ number = omega arith in
    let none_left : sub32 number number ≡ 0 = omega arith in
    elim (Bool-cases (looked b 0 number 0 == 0)) [
      | inl free ↦
          rw (goes, got, n, free, none_left) (search_loop-done b e number align fuel 0 0 0 _ refl)
      | inr taken ↦
          (let (page, entry, within, _, low) =
              claimed_of_nonzero b 0 number 0 (omega arith) (omega arith)
                (λ z. ground (arith, taken, z)) in
            absurd (let h : page % 64 < number = ground (arith, within) in omega (arith, h, low)))
    ]

-- On a valid allocator that is not empty, a request for 2 to 32 pages is answered with page 0
-- (address 0) at any alignment, whichever pages are claimed.
pub claim_pages_small :
    {a : Allocator} (number align : ℕ)
    → IsValid a
    → 0 < a.entry_count
    → 2 ≤ number
    → number ≤ 32
    → (b : Bitmap) × (claim_pages a number align ≡ some (0, record a { bitmap = b }))
unfolding claim_pages
claim_pages_small {a} number align v entries low high =
    let several : ((number == 1) && (align == 1)) ≡ false = ground arith in
    let enough : search_fuel a.entry_count ≡ suc (search_fuel a.entry_count - 1) = omega arith in
    let m = claim_multiple_pages-Marks v 0 number (omega arith) in
    let address : 0 * a.page_size ≡ 0 = omega arith in
    (
      m.out,
      rw
          (
            several,
            enough,
            search_loop_small a.bitmap a.entry_count number align _ v.size entries (omega arith)
                high,
          )
          (unfold claim_found in
            rw (m.returns, get_addres_lem 0 number v (omega arith) (omega arith), address) refl),
    )
