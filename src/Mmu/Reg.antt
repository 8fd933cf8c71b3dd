-- ===== src/Mmu/Reg.antt =====
-- pivos/include/kernel/memory/mmu/reg.h for the 4 KB granule: the unions of page table entries as
-- records of their bit-fields, with the two ways between a record and its 64 bits.
--
-- A value that is stored in a bit-field of w bits is taken modulo `2 ^ w`, and a bit-field is read
-- at its declared type.
use pi_vos.Prelude.{ℕ, zero, suc, ◌+◌, ◌*◌, ◌/◌, ◌%◌, ◌^◌, Bool, ◌||◌, ◌==◌}

abbrev pub type_mask : ℕ
type_mask = 0b11

abbrev pub empty_entry : ℕ
empty_entry = 0b00

abbrev pub block_entry : ℕ
block_entry = 0b01

abbrev pub table_entry : ℕ
table_entry = 0b11

abbrev pub page_entry : ℕ
page_entry = 0b11

-- `MMU_PAGE_SIZE`
abbrev pub page_size : ℕ
page_size = 4096

-- `MMU_ARE_BLOCK_ENTRIES_SUPPORTED`
abbrev pub are_block_entries_supported : ℕ → Bool
are_block_entries_supported level = (level == 1) || (level == 2)

-- `mmu_number_of_level_entries` has one value at every level.
abbrev pub entries_per_table : ℕ
entries_per_table = 512

-- `mmu_size_of_level_region`
abbrev pub size_of_level_region : ℕ → ℕ
size_of_level_region zero = 512 * 2 ^ 30
size_of_level_region (suc zero) = 2 ^ 30
size_of_level_region (suc (suc zero)) = 2 * 2 ^ 20
size_of_level_region _ = 4 * 2 ^ 10

-- the `width` bits from bit `at` on
abbrev pub bits_at : ℕ → ℕ → ℕ → ℕ
bits_at at width bits = bits / 2 ^ at % 2 ^ width

-- `union mmu_block_entry`, `fields_level_1`
pub record BlockEntry1 : Type 0 where
  pub valid : ℕ
  pub descriptor : ℕ
  pub lower_block_attributes : ℕ
  pub res0 : ℕ
  pub output_address : ℕ
  pub res1 : ℕ
  pub upper_block_attributes : ℕ

-- `union mmu_block_entry`, `fields_level_2`
pub record BlockEntry2 : Type 0 where
  pub valid : ℕ
  pub descriptor : ℕ
  pub lower_block_attributes : ℕ
  pub res0 : ℕ
  pub output_address : ℕ
  pub res1 : ℕ
  pub upper_block_attributes : ℕ

-- `union mmu_page_entry`
pub record PageEntry : Type 0 where
  pub valid : ℕ
  pub descriptor : ℕ
  pub lower_attributes : ℕ
  pub output_address : ℕ
  pub res0 : ℕ
  pub upper_attributes : ℕ

-- `union mmu_memory_entry_common`
pub record MemoryEntryCommon : Type 0 where
  pub valid : ℕ
  pub descriptor : ℕ
  pub lower_attributes : ℕ
  pub res : ℕ

-- `union mmu_table_entry`
pub record TableEntry : Type 0 where
  pub valid : ℕ
  pub descriptor : ℕ
  pub ignored0 : ℕ
  pub next_level_table_address : ℕ
  pub res1 : ℕ
  pub ignored1 : ℕ
  pub res2 : ℕ

-- `union mmu_lower_attributes`, `fields_stage_1`
pub record LowerAttributes : Type 0 where
  pub attr_indx : ℕ
  pub ns : ℕ
  pub ap : ℕ
  pub sh : ℕ
  pub af : ℕ
  pub ng : ℕ

-- The bits of each union, and the fields of given bits.
unfoldable pub block_bits1 : BlockEntry1 → ℕ
block_bits1 f =
    f.valid % 2
    + f.descriptor % 2 * 2
    + f.lower_block_attributes % 2 ^ 10 * 2 ^ 2
    + f.res0 % 2 ^ 18 * 2 ^ 12
    + f.output_address % 2 ^ 18 * 2 ^ 30
    + f.res1 % 2 ^ 4 * 2 ^ 48
    + f.upper_block_attributes % 2 ^ 12 * 2 ^ 52

unfoldable pub block_fields1 : ℕ → BlockEntry1
block_fields1 bits = record {
  valid = bits_at 0 1 bits;
  descriptor = bits_at 1 1 bits;
  lower_block_attributes = bits_at 2 10 bits;
  res0 = bits_at 12 18 bits;
  output_address = bits_at 30 18 bits;
  res1 = bits_at 48 4 bits;
  upper_block_attributes = bits_at 52 12 bits;
}

unfoldable pub block_bits2 : BlockEntry2 → ℕ
block_bits2 f =
    f.valid % 2
    + f.descriptor % 2 * 2
    + f.lower_block_attributes % 2 ^ 10 * 2 ^ 2
    + f.res0 % 2 ^ 9 * 2 ^ 12
    + f.output_address % 2 ^ 27 * 2 ^ 21
    + f.res1 % 2 ^ 4 * 2 ^ 48
    + f.upper_block_attributes % 2 ^ 12 * 2 ^ 52

unfoldable pub block_fields2 : ℕ → BlockEntry2
block_fields2 bits = record {
  valid = bits_at 0 1 bits;
  descriptor = bits_at 1 1 bits;
  lower_block_attributes = bits_at 2 10 bits;
  res0 = bits_at 12 9 bits;
  output_address = bits_at 21 27 bits;
  res1 = bits_at 48 4 bits;
  upper_block_attributes = bits_at 52 12 bits;
}

unfoldable pub page_bits : PageEntry → ℕ
page_bits f =
    f.valid % 2
    + f.descriptor % 2 * 2
    + f.lower_attributes % 2 ^ 10 * 2 ^ 2
    + f.output_address % 2 ^ 36 * 2 ^ 12
    + f.res0 % 2 ^ 3 * 2 ^ 48
    + f.upper_attributes % 2 ^ 13 * 2 ^ 51

unfoldable pub page_fields : ℕ → PageEntry
page_fields bits = record {
  valid = bits_at 0 1 bits;
  descriptor = bits_at 1 1 bits;
  lower_attributes = bits_at 2 10 bits;
  output_address = bits_at 12 36 bits;
  res0 = bits_at 48 3 bits;
  upper_attributes = bits_at 51 13 bits;
}

unfoldable pub common_bits : MemoryEntryCommon → ℕ
common_bits f =
    f.valid % 2
    + f.descriptor % 2 * 2
    + f.lower_attributes % 2 ^ 10 * 2 ^ 2
    + f.res % 2 ^ 52 * 2 ^ 12

unfoldable pub common_fields : ℕ → MemoryEntryCommon
common_fields bits = record {
  valid = bits_at 0 1 bits;
  descriptor = bits_at 1 1 bits;
  lower_attributes = bits_at 2 10 bits;
  res = bits_at 12 52 bits;
}

unfoldable pub table_bits : TableEntry → ℕ
table_bits f =
    f.valid % 2
    + f.descriptor % 2 * 2
    + f.ignored0 % 2 ^ 10 * 2 ^ 2
    + f.next_level_table_address % 2 ^ 36 * 2 ^ 12
    + f.res1 % 2 ^ 4 * 2 ^ 48
    + f.ignored1 % 2 ^ 7 * 2 ^ 52
    + f.res2 % 2 ^ 5 * 2 ^ 59

unfoldable pub table_fields : ℕ → TableEntry
table_fields bits = record {
  valid = bits_at 0 1 bits;
  descriptor = bits_at 1 1 bits;
  ignored0 = bits_at 2 10 bits;
  next_level_table_address = bits_at 12 36 bits;
  res1 = bits_at 48 4 bits;
  ignored1 = bits_at 52 7 bits;
  res2 = bits_at 59 5 bits;
}

unfoldable pub attributes_bits : LowerAttributes → ℕ
attributes_bits f =
    f.attr_indx % 2 ^ 3
    + f.ns % 2 * 2 ^ 3
    + f.ap % 2 ^ 2 * 2 ^ 4
    + f.sh % 2 ^ 2 * 2 ^ 6
    + f.af % 2 * 2 ^ 8
    + f.ng % 2 * 2 ^ 9

unfoldable pub attributes_fields : ℕ → LowerAttributes
attributes_fields bits = record {
  attr_indx = bits_at 0 3 bits;
  ns = bits_at 3 1 bits;
  ap = bits_at 4 2 bits;
  sh = bits_at 6 2 bits;
  af = bits_at 8 1 bits;
  ng = bits_at 9 1 bits;
}
