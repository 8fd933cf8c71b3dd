-- ===== src/Memory/Tests.antt =====
-- Contexts over an allocator with 64 free pages, and the initialisation for 5 GB.
use pi_vos.Prelude.{
  ◌-◌, ◌/◌, ◌^◌, ◌≤◌, ◌⊎◌, ◌==◌, ltb, if◌then◌else◌, ℕ, ◌+◌, ◌<◌, ◌≢◌, true, zero, suc, ◌*◌, ◌≡◌,
  refl, some, [], ◌∷◌, arith, false,
}
use pi_vos.Word.{kernel_space_mask, test_bit}
use pi_vos.Allocator.{Allocator}
use pi_vos.Allocator.Entry.{AreWords}
use pi_vos.Allocator.Valid.{IsValid, is_claimed}
use pi_vos.Allocator.Sequence.Low.{free_low}
use pi_vos.Allocator.Sequence.{count_free, free_count, after, page_at}
use pi_vos.Mmu.Tables.{Memory, read_entry}
use pi_vos.Mmu.Walk.{Machine, ◌>>=◌}
use pi_vos.Mmu.Walk.Steps.{table_at}
use pi_vos.Mmu.Translate.{va_to_pa, WalksTo2, idx1, idx2}
use pi_vos.Mmu.Destroy.Release.{rounds}
use pi_vos.Memory.{source, destroy_context, init}
use pi_vos.Memory.Mapped.{Fits, new_mapped, region, new_mapped_lem}
use pi_vos.Memory.Destroyed.{destroy_context-new_mapped}
use pi_vos.Memory.Kernel.Boot.{BootTables, boot_entry, MapsBlock}
use pi_vos.Memory.Kernel.Init.{is_reserved}
use pi_vos.Memory.Kernel.Whole.{memory_init_lem}

abbrev fresh : Allocator
fresh = record { bitmap = 0 ∷ []; bitmap_addr = 0; entry_count = 1; page_size = 4096 }

fresh-words : AreWords fresh.bitmap
fresh-words zero = omega arith
fresh-words (suc i) = omega arith

fresh-IsValid : IsValid fresh
fresh-IsValid = record {
  size = refl;
  words = fresh-words;
  small = omega arith;
  page_pos = omega arith;
  span = omega arith;
}

abbrev machine : Machine source
machine = record { mem = λ addr. addr; pages = fresh }

free_count-fresh : free_count fresh ≡ 64
unfolding count_free test_bit
free_count-fresh = refl

free_low-fresh : free_low fresh ≡ 64
unfolding count_free test_bit
free_low-fresh = refl

fits : Fits machine.pages 0x3000 2 1
fits = record {
  valid = fresh-IsValid;
  page_bytes = refl;
  aligned = omega arith;
  one_table = omega arith;
  in_range = omega arith;
  known_type = omega arith;
  some_pages = omega arith;
  less_than_block = omega arith;
  enough_low = omega (arith, free_low-fresh);
}

new_mapped_lem_example :
    (out : Machine source) × (new_mapped (region machine 0x3000 2 1 fits) machine
      ≡ some (table_at (page_at fresh 0), out))
    × (out.pages ≡ after fresh (4 + 2))
    × IsValid out.pages
    × (free_count out.pages + (4 + 2) ≡ free_count fresh)
    × ((i j : ℕ) → i < j → j < 4 + 2 → page_at fresh i ≢ page_at fresh j)
    × ((i : ℕ) → i < 4 + 2 → is_claimed fresh (page_at fresh i) ≡ false)
    × ((k offset : ℕ)
        → k < 2
        → offset < 4096
        → va_to_pa out.mem (table_at (page_at fresh 0)) (0x3000 + k * 4096 + offset)
          ≡ page_at fresh (4 + k) * 4096 + offset + kernel_space_mask)
    × ((q i : ℕ)
        → is_claimed fresh q ≡ true
        → i < 512
        → read_entry out.mem (table_at q) i ≡ read_entry machine.mem (table_at q) i)
new_mapped_lem_example = new_mapped_lem machine 0x3000 2 1 fits

destroy_context-new_mapped_example :
    (out : Machine source) × ((new_mapped (region machine 0x3000 2 1 fits)
          >>= destroy_context (rounds source 2))
        machine
      ≡ some (tt, out))
    × IsValid out.pages
    × ((q : ℕ) → is_claimed out.pages q ≡ is_claimed fresh q)
    × ((q i : ℕ)
        → is_claimed fresh q ≡ true
        → i < 512
        → read_entry out.mem (table_at q) i ≡ read_entry machine.mem (table_at q) i)
destroy_context-new_mapped_example =
    destroy_context-new_mapped machine 0x3000 2 1 (rounds source 2) fits (omega arith) (omega arith)
      (omega arith)

-- The boot code's tables in pages 128 to 130.
abbrev booted : Memory
booted addr =
    if addr == table_at 128
    then 129 * 4096 + 3
    else if addr == table_at 129
    then 130 * 4096 + 3
    else if ltb addr (table_at 130)
    then 0
    else boot_entry ((addr - table_at 130) / 8)

booted-BootTables : BootTables booted 128
booted-BootTables = record {
  level0_first = refl;
  level1_first = refl;
  level1_rest = λ j low h. ground arith;
  level2_blocks = λ i h. ground arith;
}

memory_init_lem_example :
    (out : Machine source) × (init (2560 * 2 ^ 21) (table_at 131) (table_at 128) booted ≡ some out)
    × IsValid out.pages
    × ((va : ℕ)
        → va < 2560 * 2 ^ 21
        → (t2 : ℕ) × WalksTo2 out.mem (table_at 128) va t2
          × MapsBlock (va / 2 ^ 21) (read_entry out.mem t2 (idx2 va)))
    × ((va : ℕ)
        → 2560 * 2 ^ 21 ≤ va
        → va < 2 ^ 39
        → (read_entry out.mem (table_at 129) (idx1 va) ≡ 0)
          ⊎ ((t2 : ℕ) × WalksTo2 out.mem (table_at 128) va t2
              × (read_entry out.mem t2 (idx2 va) ≡ 0)))
    × ((q : ℕ) → is_reserved 131 2560 q ≡ true → is_claimed out.pages q ≡ true)
memory_init_lem_example =
    memory_init_lem 131 2560 booted (omega arith) (omega arith) booted-BootTables (omega arith)
      (omega arith)
