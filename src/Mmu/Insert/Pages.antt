-- ===== src/Mmu/Insert/Pages.antt =====
-- mmu.c: mapping the empty entries of one level 3 table to the pages that the callback gives.
use pi_vos.Prelude.{
  ℕ, zero, suc, ap₂, ◌+◌, ◌-◌, ◌*◌, ◌^◌, ◌≤◌, ◌<◌, ◌≡◌, refl, arith, ap, ◌∙◌, true, ltb, min, some,
}
use pi_vos.Word.{u32, u64, sub32, sub64}
use pi_vos.Mmu.Reg.{page_size, size_of_level_region}
use pi_vos.Mmu.Tables.{Memory, read_entry, write_entry, create_page_entry, new_page_entry}
use pi_vos.Mmu.Fill.{fill, write_entry_apart}
use pi_vos.Mmu.Walk.{
  PageSource, Machine, EntryInfo, M, pure, ◌>>=◌, ◌>>◌, traverse_and_alloc_tables,
}
use pi_vos.Mmu.Insert.{PhysSpaceRequest, map_unit, map_table_units, map_loop, map_units}

-- the requests are answered with their own virtual address
abbrev pub one_to_one : (source : PageSource) → PhysSpaceRequest → M source ℕ
one_to_one source request = pure request.virt_addr

-- A callback that gives, for the pages of a region from `va` on, page by page, the addresses
-- `page_of 0`, `page_of 1` and so on, and takes the page source from state to state.
pub record Gives (source : PageSource) (get_phys_space : PhysSpaceRequest → M source ℕ)
    (va count : ℕ) (page_of : ℕ → ℕ) (states : ℕ → source.State) : Type 0 where
  pub page :
      (k : ℕ) (mem : Memory)
      → k < count
      → get_phys_space
          (record { virt_addr = va + k * 4096; page_count = 1; align = 1 })
          (record { mem = mem; pages = states k })
        ≡ some (page_of k, record { mem = mem; pages = states (k + 1) })

pub one_to_one-Gives :
    (source : PageSource) (va count : ℕ) (s : source.State)
    → Gives source (one_to_one source) va count (λ k. va + k * 4096) (λ k. s)
one_to_one-Gives source va count s = record { page = λ k mem h. refl }

module _ (source : PageSource) (t3 start type : ℕ) (page_of : ℕ → ℕ) where
  -- what entry `i` gets when entry `start` is for the first page
  abbrev pub page_value : ℕ → ℕ
  page_value i = new_page_entry (page_of (i - start)) type

  module _ (get_phys_space : PhysSpaceRequest → M source ℕ) (va count : ℕ)
      (states : ℕ → source.State)
      (gives : Gives source get_phys_space va count page_of states) where
    -- The loop over the units of a level 3 table fills the empty entries from `n` on.
    map_table_units-fill :
        (left n idx level : ℕ) (mem : Memory)
        → start ≤ n
        → n - start + left ≡ count
        → va + count * 4096 < 2 ^ 64
        → ((i : ℕ) → n ≤ i → i < n + left → read_entry mem t3 i ≡ 0)
        → map_table_units source get_phys_space create_page_entry 3 type left
            (record { table = t3; idx = idx; level = level })
            n
            (va + (n - start) * 4096)
            (record { mem = mem; pages = states (n - start) })
          ≡ some (tt, record { mem = fill page_value t3 left n mem; pages = states count })
    unfolding map_table_units map_unit fill create_page_entry
    map_table_units-fill zero n idx level mem h all b empty =
        let e : n - start ≡ count = omega arith in rw e refl
    map_table_units-fill (suc left) n idx level mem h all b empty =
        rw (◌>>◌, ◌>>=◌, unit_lem, next)
          (ap
              (λ k.
                map_table_units source get_phys_space create_page_entry 3 type left here (n + 1)
                  (va + (n + 1 - start) * 4096) (record { mem = written; pages = states k }))
              count_on
            ∙ map_table_units-fill left (n + 1) idx level written (omega arith) (omega arith) b
                still)
      where
        here : EntryInfo
        here = record { table = t3; idx = idx; level = level }

        written : Memory
        written = write_entry mem t3 n (page_value n)

        unit_lem :
            map_unit source get_phys_space create_page_entry 3 type here n
              (va + (n - start) * 4096)
              (record { mem = mem; pages = states (n - start) })
            ≡ some (tt, record { mem = written; pages = states (n - start + 1) })
        unit_lem =
            rw
              (empty n (omega arith) (omega arith), ◌>>=◌, gives.page (n - start) mem (omega arith))
              refl

        next : u64 (va + (n - start) * 4096 + page_size) ≡ va + (n + 1 - start) * 4096
        next = omega arith

        count_on : n - start + 1 ≡ n + 1 - start
        count_on = omega arith

        still : (i : ℕ) → n + 1 ≤ i → i < n + 1 + left → read_entry written t3 i ≡ 0
        still i p q =
            write_entry_apart mem t3 n (page_value n) (t3 + 8 * i) (omega arith)
            ∙ empty i (omega arith) (omega arith)

    -- No units are left: the loop ends.
    map_loop_done :
        (fuel table level address offset : ℕ) (m : Machine source)
        → map_loop source get_phys_space create_page_entry 3 type fuel table level address offset 0
            m
          ≡ some (tt, m)
    unfolding map_loop
    map_loop_done zero table level address offset m = refl
    map_loop_done (suc fuel) table level address offset m = refl

    -- Where the walk for `va` ends at a level 3 table, and `count` entries from that
    -- of `va` on lie in the table and are empty, the pages are mapped in one round.
    map_loop-fill :
        (fuel t0 : ℕ) (m : Machine source) (mem : Memory)
        → 0 < count
        → start + count ≤ 512
        → va + count * 4096 < 2 ^ 64
        → traverse_and_alloc_tables source t0 0 va 3 m
          ≡ some (
            record { table = t3; idx = start; level = 3 },
            record { mem = mem; pages = states 0 },
          )
        → ((i : ℕ) → start ≤ i → i < start + count → read_entry mem t3 i ≡ 0)
        → map_loop source get_phys_space create_page_entry 3 type (suc fuel) t0 0 va 0 count m
          ≡ some (tt, record { mem = fill page_value t3 count start mem; pages = states count })
    unfolding map_loop
    map_loop-fill fuel t0 m mem h inside b walk empty =
        rw (more, ◌>>◌, ◌>>=◌, first, walk, all, first, units, all, spent)
          (map_loop_done fuel t0 0 va (u64 (0 + count * size_of_level_region 3)) filled)
      where
        more : ltb 0 count ≡ true
        more = ground arith

        filled : Machine source
        filled = record { mem = fill page_value t3 count start mem; pages = states count }

        at_start : va ≡ va + (start - start) * 4096
        at_start = omega arith

        at_zero : 0 ≡ start - start
        at_zero = omega arith

        units :
            map_table_units source get_phys_space create_page_entry 3 type count
              (record { table = t3; idx = start; level = 3 })
              start
              va
              (record { mem = mem; pages = states 0 })
            ≡ some (tt, filled)
        units =
            ap₂
              (λ a k.
                map_table_units source get_phys_space create_page_entry 3 type count
                  (record { table = t3; idx = start; level = 3 }) start a
                  (record { mem = mem; pages = states k }))
              at_start at_zero
            ∙ map_table_units-fill count start start 3 mem (omega arith) (omega arith) b empty

        spent : sub32 count count ≡ 0
        spent = omega arith

        first : u64 (va + 0) ≡ va
        first = omega arith

        all : u32 (min (sub64 512 start) count) ≡ count
        all = omega arith

    pub map_units-fill :
        (t0 : ℕ) (m : Machine source) (mem : Memory)
        → 0 < count
        → start + count ≤ 512
        → va + count * 4096 < 2 ^ 64
        → traverse_and_alloc_tables source t0 0 va 3 m
          ≡ some (
            record { table = t3; idx = start; level = 3 },
            record { mem = mem; pages = states 0 },
          )
        → ((i : ℕ) → start ≤ i → i < start + count → read_entry mem t3 i ≡ 0)
        → map_units source get_phys_space create_page_entry 3 type t0 0 va count m
          ≡ some (tt, record { mem = fill page_value t3 count start mem; pages = states count })
    unfolding map_units
    map_units-fill t0 m mem h inside b walk empty =
        let fuel : count ≡ suc (count - 1) = omega arith in
        ap (λ f. map_loop source get_phys_space create_page_entry 3 type f t0 0 va 0 count m) fuel
        ∙ map_loop-fill (count - 1) t0 m mem h inside b walk empty
