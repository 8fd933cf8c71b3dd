-- ===== src/Mmu/Destroy/Release.antt =====
-- mmu.c: the loop of `mmu_destroy_entry` against a recursive description of what it releases.
use pi_vos.Prelude.{
  ℕ, zero, suc, ◌+◌, ◌-◌, ◌*◌, ◌/◌, ◌%◌, ◌<◌, ◌≡◌, ◌≢◌, arith, Option, none, some, List, ◌==◌,
  if◌then◌else◌, bit_and,
}
use pi_vos.Word.{u32}
use pi_vos.Word.Step.{bit_and_step}
use pi_vos.Word.Bits.{bit_and_low_mask}
use pi_vos.Mmu.Reg.{page_size, size_of_level_region}
use pi_vos.Mmu.Tables.{
  Memory, read_entry, get_subtable, get_address_from_page_entry, get_address_from_block_entry,
}
use pi_vos.Mmu.Walk.{PageSource, Machine, EntryInfo}
use pi_vos.Mmu.Destroy.{destroy_loop}

module _ (source : PageSource) where
  abbrev pub Release : Type 0
  Release = source.State → Option source.State

  abbrev pub then_release : Release → Release → Release
  then_release first next s = elim (first s) [ none ↦ none | some s1 ↦ next s1 ]

  -- The releases for `left` entries from `idx` on, in order.
  unfoldable pub each : (ℕ → Release) → ℕ → ℕ → Release
  each release zero idx = some
  each release (suc left) idx = then_release (release idx) (each release left (idx + 1))

  -- An even entry is empty, one that ends in 01 is a block, any other leads on.
  unfoldable pub release_entry : (ℕ → Release) → Memory → ℕ → ℕ → ℕ → Release
  release_entry deeper mem table level idx s =
      let entry = read_entry mem table idx in
      if entry % 2 == 0
      then some s
      else if entry % 4 == 1
      then source.pages_dealloc (get_address_from_block_entry entry level)
          (u32 (size_of_level_region level / page_size)) s
      else deeper idx s

  -- What a table with `depth` levels below it holds, then the table itself.
  unfoldable pub release_table : ℕ → Memory → ℕ → Release
  release_table zero mem table =
      then_release
        (each
          (release_entry
            (λ idx. source.pages_dealloc (get_address_from_page_entry (read_entry mem table idx)) 1)
            mem table 3)
          512 0)
        (source.pages_dealloc table 1)
  release_table (suc depth) mem table =
      then_release
        (each
          (release_entry (λ idx. release_table depth mem (get_subtable mem table idx)) mem table
            (2 - depth))
          512 0)
        (source.pages_dealloc table 1)

  -- Rounds of the loop that are enough for such a table.
  unfoldable pub rounds : ℕ → ℕ
  rounds zero = 512
  rounds (suc depth) = 512 * (1 + rounds depth)

  -- No last entry of a table above level 3 leads to a table.
  unfoldable pub EndsWell : ℕ → Memory → ℕ → Type 0
  EndsWell zero mem table = Unit {0}
  EndsWell (suc depth) mem table =
      (read_entry mem table 511 % 4 ≢ 3)
      × ((idx : ℕ)
          → idx < 512
          → read_entry mem table idx % 4 ≡ 3
          → EndsWell depth mem (get_subtable mem table idx))

  -- The state of the loop after a release, `none` where the release failed.
  abbrev pub go_on :
      Release → ℕ → List EntryInfo → Memory → source.State → Option (Unit {0} × Machine source)
  go_on release fuel below mem s = elim (release s) [
    | none ↦ none
    | some s1 ↦ destroy_loop source fuel below (record { mem = mem; pages = s1 })
  ]

  pub descriptor_bit : (entry : ℕ) → entry % 2 ≡ 1 → (bit_and entry 0b10 == 0) ≡ (entry % 4 == 1)
  descriptor_bit entry odd = ground (arith, bit_and_step entry 2, bit_and_low_mask 1 (entry / 2))

  pub valid_bit : (entry : ℕ) → bit_and entry 0b01 ≡ entry % 2
  valid_bit entry = bit_and_low_mask 1 entry
