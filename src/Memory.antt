-- ===== src/Memory.antt =====
-- memory.c: the memory component, made of the page allocator and the translation tables.
pub mod Mapped
pub mod Released
pub mod Destroyed
pub mod Blocks
pub mod Kernel
mod Tests
use pi_vos.Prelude.{ℕ, ◌+◌, ◌-◌, ◌*◌, ◌/◌, ◌^◌, Option, none, some, List}
use pi_vos.Word.{u32, u64, sub64, align_up64, align_down64, strip_kernel_space}
use pi_vos.Allocator
use pi_vos.Allocator.{Allocator}
use pi_vos.Allocator.Search
use pi_vos.Mmu.Reg.{page_size}
use pi_vos.Mmu.Tables.{Memory}
use pi_vos.Mmu.Walk.{PageSource, Machine, M, pure, ◌>>=◌, ◌>>◌, create_table}
use pi_vos.Mmu.Insert.{PhysSpaceRequest, insert}
use pi_vos.Mmu.Destroy.{destroy_table}
use pi_vos.Proc.{Region, MapType, map_alloc, one_to_one, MemoryOps}

-- `memory_mmu_init(memory_allocator_claim_pages, memory_allocator_free_pages)`
abbrev pub source : PageSource
source = record {
  State = Allocator;
  pages_alloc = λ number align a. Search.claim_pages a number align;
  pages_dealloc = λ addr number a. Allocator.free_pages a addr number;
}

unfoldable pub get_phys_space_alloc : PhysSpaceRequest → M source ℕ
get_phys_space_alloc request m =
    elim (Search.claim_pages m.pages request.page_count request.align) [
      | none ↦ none
      | some (addr, pages) ↦ some (addr, record m { pages = pages })
    ]

unfoldable pub get_phys_space_one_to_one : PhysSpaceRequest → M source ℕ
get_phys_space_one_to_one request = pure request.virt_addr

unfoldable pub get_phys_space : MapType → PhysSpaceRequest → M source ℕ
unfolding get_phys_space_alloc get_phys_space_one_to_one
get_phys_space map_alloc = get_phys_space_alloc
get_phys_space one_to_one = get_phys_space_one_to_one

unfoldable pub create_context : M source ℕ
create_context = create_table source

-- The loop that destroys an entry runs on fuel.
unfoldable pub destroy_context : ℕ → ℕ → M source (Unit {0})
destroy_context fuel level0_table = destroy_table source fuel level0_table

unfoldable pub map_region : ℕ → Region → MapType → M source (Unit {0})
unfolding get_phys_space
map_region level0_table region map_type =
    insert source (get_phys_space map_type) level0_table 0 region.va region.size region.memory_type

-- What `memory_init` maps one to one: the memory below the peripherals, the peripherals, and the
-- memory above them.
abbrev pub peripherials_start : ℕ
peripherials_start = 0xF0000000

abbrev pub peripherials_end : ℕ
peripherials_end = 0x100000000

unfoldable pub kernel_regions : ℕ → Region × Region × Region
kernel_regions size = (
  record { memory_type = 0; va = 0; size = peripherials_start },
  record { memory_type = 1; va = peripherials_start; size = peripherials_end - peripherials_start },
  record { memory_type = 0; va = peripherials_end; size = sub64 size peripherials_end },
)

-- The allocator after its preparation: the pages of the image and of the peripherals are claimed.
unfoldable pub init_allocator : ℕ → ℕ → Option Allocator
init_allocator size kernel_end =
    elim (Allocator.init (align_up64 kernel_end page_size) (u32 (size / page_size)) page_size) [
      | none ↦ none
      | some a ↦
          elim (Allocator.claim_range a 0 (align_up64 (strip_kernel_space kernel_end) page_size)) [
            | none ↦ none
            | some b ↦
                Allocator.claim_range b (align_down64 peripherials_start page_size)
                  (align_up64 peripherials_end page_size)
          ]
    ]

-- The three calls of `memory_map_region` in `memory_init`.
unfoldable pub map_kernel_regions : ℕ → ℕ → M source (Unit {0})
unfolding kernel_regions map_region
map_kernel_regions size mmu_space_start =
    let (normal1, peripherals, normal2) = kernel_regions size in
    do
      map_region mmu_space_start normal1 one_to_one
      map_region mmu_space_start peripherals one_to_one
      map_region mmu_space_start normal2 one_to_one

-- `kernel_end` and `mmu_space_start` are the symbols of the linker script.
unfoldable pub init : ℕ → ℕ → ℕ → Memory → Option (Machine source)
unfolding init_allocator map_kernel_regions
init size kernel_end mmu_space_start mem = elim (init_allocator size kernel_end) [
  | none ↦ none
  | some a ↦ elim (map_kernel_regions size mmu_space_start (record { mem = mem; pages = a })) [
    | none ↦ none
    | some (_, m) ↦ some m
  ]
]
