-- ===== src/Mmu/Insert/Tests.antt =====
-- Insertions of two pages at 0x3000, with and without tables, and a page source that counts.
use pi_vos.Prelude.{ℕ, ◌+◌, ◌*◌, ◌<◌, ◌≡◌, ◌≢◌, refl, arith, some, ◌==◌, if◌then◌else◌}
use pi_vos.Word.{kernel_space_mask, to_kernel_space}
use pi_vos.Mmu.Reg.{table_fields}
use pi_vos.Mmu.Tables.{get_subtable, get_next_level_table_from_table_entry}
use pi_vos.Mmu.Fill.{IsApart}
use pi_vos.Mmu.Walk.{PageSource, Machine}
use pi_vos.Mmu.Walk.Steps.{table_at}
use pi_vos.Mmu.Translate.{va_to_pa, WalksTo3, idx0}
use pi_vos.Mmu.Insert.{insert}
use pi_vos.Mmu.Insert.Pages.{one_to_one}
use pi_vos.Mmu.Insert.Translated.{insert_builds, insert_in_table}

-- gives page 1, then page 2 and so on
abbrev counter : PageSource
counter = record {
  State = ℕ;
  pages_alloc = λ number align next. some (next * 4096, next + 1);
  pages_dealloc = λ addr number next. some next;
}

abbrev fresh : Machine counter
fresh = record { mem = λ addr. 0; pages = 10 }

insert_builds_example :
    (out : Machine counter) × (insert counter
        (one_to_one counter)
        (table_at 1)
        0
        0x3000
        (2 * 4096)
        1
        fresh
      ≡ some (tt, out))
    × (out.pages ≡ 13)
    × ((offset : ℕ)
        → offset < 2 * 4096
        → va_to_pa out.mem (table_at 1) (0x3000 + offset) ≡ 0x3000 + offset + kernel_space_mask)
    × ((addr : ℕ)
        → IsApart (table_at 10) addr
        → IsApart (table_at 11) addr
        → IsApart (table_at 12) addr
        → addr ≢ table_at 1 + 8 * idx0 0x3000
        → out.mem addr ≡ fresh.mem addr)
insert_builds_example =
    insert_builds counter 0x3000 1 10 11 12 11 12 13 fresh 2 1 (omega arith) (omega arith)
      (omega arith) (omega arith) (omega arith) (omega arith)
      (omega arith, omega arith, omega arith)
      (omega arith, omega arith, omega arith, omega arith, omega arith, omega arith) refl refl refl
      refl

-- the tables of the walk for address 0 are pages 1 to 4
abbrev walked : Machine counter
walked = record {
  mem = λ addr.
      if addr == table_at 1
      then 0x2003
      else if addr == table_at 2
      then 0x3003
      else if addr == table_at 3
      then 0x4003
      else 0;
  pages = 10;
}

walked_subtables :
    (get_subtable walked.mem (table_at 1) 0 ≡ table_at 2)
    × (get_subtable walked.mem (table_at 2) 0 ≡ table_at 3)
    × (get_subtable walked.mem (table_at 3) 0 ≡ table_at 4)
unfolding get_subtable to_kernel_space get_next_level_table_from_table_entry table_fields
walked_subtables = (refl, refl, refl)

abbrev walked_steps : WalksTo3 walked.mem (table_at 1) 0x3000 (table_at 4)
walked_steps = record {
  t2 = table_at 3;
  above = record {
    t1 = table_at 2;
    entry0 = refl;
    sub0 = walked_subtables.0;
    entry1 = refl;
    sub1 = walked_subtables.1;
  };
  entry2 = refl;
  sub2 = walked_subtables.2;
}

insert_in_table_example :
    (out : Machine counter) × (insert counter
        (one_to_one counter)
        (table_at 1)
        0
        0x3000
        (2 * 4096)
        1
        walked
      ≡ some (tt, out))
    × (out.pages ≡ walked.pages)
    × ((addr : ℕ) → IsApart (table_at 4) addr → out.mem addr ≡ walked.mem addr)
    × ((offset : ℕ)
        → offset < 2 * 4096
        → va_to_pa out.mem (table_at 1) (0x3000 + offset) ≡ 0x3000 + offset + kernel_space_mask)
insert_in_table_example =
    insert_in_table counter (table_at 4) 0x3000 2 1 (omega arith) (omega arith) (omega arith)
      (omega arith) (table_at 1) walked (omega arith) (omega arith) walked_steps (omega arith)
      (omega arith) (omega arith) (λ i low high. ground arith)
