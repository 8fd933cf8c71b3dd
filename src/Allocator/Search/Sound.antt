-- ===== src/Allocator/Search/Sound.antt =====
-- The loop invariant of the search, its two steps, and how the loop ends.
use native.Mathlib.Nat.{mul-le-mul_right, le_trans}
use pi_vos.Prelude.{
  ℕ, ◌+◌, ◌-◌, ◌*◌, ◌/◌, ◌%◌, ◌^◌, ◌≤◌, ◌<◌, ◌≡◌, ◌≢◌, refl, arith, true, false, min, ltb,
  Bool-cases, ◌⊎◌, inl, inr, ltb→lt,
}
use pi_vos.Allocator.{Bitmap}
use pi_vos.Allocator.Entry.{claimed, in_range}
use pi_vos.Allocator.Search.Bounds.{IsSkip, looked, free_of_zero, claimed_of_nonzero}

-- Some page of the `number` pages from `start` on is claimed.
abbrev pub IsBlocked : Bitmap → ℕ → ℕ → Type 0
IsBlocked b number start =
    (page : ℕ) × (start ≤ page) × (page < start + number) × (claimed b page ≡ true)

-- No page from `from` on and before `to` is claimed, as far as the lower halves of entries show.
abbrev pub LowFree : Bitmap → ℕ → ℕ → Type 0
LowFree b from to = (page : ℕ) → from ≤ page → page < to → 32 ≤ page % 64 → claimed b page ≡ false

-- What the search promises of the page that it finds.
pub record IsFound (b : Bitmap) (entry_count number align page : ℕ) : Type 0 where
  pub times : ℕ
  pub aligned : page ≡ times * align
  pub inside : page + number ≤ entry_count * 64
  pub low_free : LowFree b page (page + number)

ltb-false→le : (x y : ℕ) → ltb x y ≡ false → y ≤ x
ltb-false→le x y h = ground arith

mul-lt_cancel : (x y m : ℕ) → x * m < y * m → x < y
mul-lt_cancel x y m h = elim (Bool-cases (ltb x y)) [
  | inl less ↦ ltb→lt x y less
  | inr more ↦
      let g : y ≤ x = ground arith in
      let f : y * m ≤ x * m = mul-le-mul_right m g in absurd (omega (arith, h, f))
]

module _ (b : Bitmap) (entry_count number k : ℕ) where
  -- The variables at the top of a round.
  pub record InSearch (current_page offset pages_left entry_idx : ℕ) : Type 0 where
    pub offset_in : offset < 64
    pub left_le : pages_left ≤ number
    pub reach : current_page + (number - pages_left) ≤ entry_idx * 64 + offset
    pub spot : 0 < pages_left → current_page + (number - pages_left) ≡ entry_idx * 64 + offset
    pub times : ℕ
    pub aligned : current_page ≡ times * 2 ^ k
    pub low_free : LowFree b current_page (current_page + (number - pages_left))
    pub passed : (t : ℕ) → t * 2 ^ k < current_page → IsBlocked b number (t * 2 ^ k)
    pub progress : (pages_left ≡ number) ⊎ (current_page + (number - pages_left) ≤ entry_count * 64)

module _ {b : Bitmap} {entry_count number k : ℕ} where
  module _ {cp o left idx : ℕ} (v : InSearch b entry_count number k cp o left idx) (more : 0 < left)
      (inside : idx < entry_count) where
    -- the pages of the chunk
    in_chunk :
        (page : ℕ)
        → cp + (number - left) ≤ page
        → page < cp + (number - (left - min (64 - o) left))
        → (page / 64 ≡ idx) × (in_range o (min (64 - o) left) (page % 64) ≡ true)
    in_chunk page l h =
        let low : idx * 64 + o ≤ page = omega (arith, v.spot more) in
        let high : page < idx * 64 + o + min (64 - o) left =
          omega (arith, v.spot more, v.left_le) in
        let entry : page / 64 ≡ idx = omega (arith, v.offset_in) in
        (entry, ground (arith, low, high, entry))

    -- The chunk is free, as far as it is looked at.
    pub InSearch-free :
        looked b idx (min (64 - o) left) o ≡ 0
        → InSearch b entry_count number k cp 0 (left - min (64 - o) left) (idx + 1)
    InSearch-free z = record {
      offset_in = omega arith;
      left_le = omega (arith, v.left_le);
      reach = omega (arith, v.left_le, v.offset_in, v.spot more);
      spot = λ h. omega (arith, v.left_le, v.offset_in, v.spot more);
      times = v.times;
      aligned = v.aligned;
      low_free = λ page l h low. elim (Bool-cases (ltb page (cp + (number - left)))) [
        | inl before ↦ v.low_free page l (ltb→lt _ _ before) low
        | inr after ↦
            free_of_zero b idx _ o (omega arith) v.offset_in z page
              (in_chunk page (ltb-false→le _ _ after) h).0 low
              (in_chunk page (ltb-false→le _ _ after) h).1
      ];
      passed = v.passed;
      progress = inr (omega (arith, v.left_le, v.offset_in, v.spot more));
    }

    -- A page of the chunk is claimed.
    blocked_page :
        looked b idx (min (64 - o) left) o ≢ 0
        → (page : ℕ) × (cp + (number - left) ≤ page)
          × (page < cp + number)
          × (claimed b page ≡ true)
    blocked_page ne =
        let (page, entry, within, taken, _) =
          claimed_of_nonzero b idx (min (64 - o) left) o (omega arith) v.offset_in ne in
        let bounds : (idx * 64 + o ≤ page) × (page < idx * 64 + o + left) =
          (ground (arith, entry, within), ground (arith, entry, within)) in
        (
          page,
          omega (arith, v.spot more, bounds),
          omega (arith, v.spot more, v.left_le, bounds),
          taken,
        )

    -- An aligned start that is skipped is blocked by that page.
    skipped :
        {step : ℕ} (t : ℕ)
        → IsSkip (2 ^ k) (number - left) step
        → cp ≤ t * 2 ^ k
        → t * 2 ^ k < cp + step
        → t * 2 ^ k ≤ cp + (number - left)
    skipped {step} t s low high =
        let below : t < v.times + s.times + 1 =
          mul-lt_cancel t (v.times + s.times + 1) (2 ^ k) (omega (arith, v.aligned, s.whole)) in
        let m : t * 2 ^ k ≤ (v.times + s.times) * 2 ^ k =
          mul-le-mul_right (2 ^ k) (let h : t ≤ v.times + s.times = omega arith in h) in
        elim s.last [
          | inl zero_times ↦
              (let e : s.times * 2 ^ k ≡ 0 = rw zero_times (omega arith) in
                omega (arith, v.aligned, m, e))
          | inr less ↦ omega (arith, v.aligned, m, less)
        ]

    pub InSearch-taken :
        {step : ℕ}
        → IsSkip (2 ^ k) (number - left) step
        → looked b idx (min (64 - o) left) o ≢ 0
        → InSearch b entry_count number k (cp + step) ((cp + step) % 64) number ((cp + step) / 64)
    InSearch-taken {step} s ne = record {
      offset_in = omega arith;
      left_le = omega arith;
      reach = omega arith;
      spot = λ h. omega arith;
      times = v.times + s.times + 1;
      aligned = omega (arith, v.aligned, s.whole);
      low_free = λ page l h low. absurd (omega arith);
      passed = λ t h. elim (Bool-cases (ltb (t * 2 ^ k) cp)) [
        | inl before ↦ v.passed t (ltb→lt _ _ before)
        | inr after ↦
            let (page, low, high, taken) = blocked_page ne in
            let from = ltb-false→le (t * 2 ^ k) cp after in
            (page, le_trans (skipped t s from h) low, omega (arith, from, high), taken)
      ];
      progress = inl refl;
    }
