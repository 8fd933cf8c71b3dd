-- ===== src/Interrupt.antt =====
-- int.c: the table of dispatch functions, one for each entry of the vector table.
--
-- A dispatch function gets the syndrome register and changes the machine, which holds the saved
-- registers. `none` in the table is the null pointer that the static array starts with.
pub mod Table
use pi_vos.Prelude.{ℕ, Option, none, some, ltb, ◌==◌, if◌then◌else◌}

-- `enum int_type`, in the order of `INT_LIST`
pub data IntType : Type 0 where
  cur_el_sp0_sync : IntType
  cur_el_sp0_irq : IntType
  cur_el_sp0_fiq : IntType
  cur_el_sp0_serror : IntType
  cur_el_spn_sync : IntType
  cur_el_spn_irq : IntType
  cur_el_spn_fiq : IntType
  cur_el_spn_serror : IntType
  low_el_aarch64_sync : IntType
  low_el_aarch64_irq : IntType
  low_el_aarch64_fiq : IntType
  low_el_aarch64_serror : IntType
  low_el_aarch32_sync : IntType
  low_el_aarch32_irq : IntType
  low_el_aarch32_fiq : IntType
  low_el_aarch32_serror : IntType

-- The value of the enumerator, the index in the table
unfoldable pub number : IntType → ℕ
number cur_el_sp0_sync = 0
number cur_el_sp0_irq = 1
number cur_el_sp0_fiq = 2
number cur_el_sp0_serror = 3
number cur_el_spn_sync = 4
number cur_el_spn_irq = 5
number cur_el_spn_fiq = 6
number cur_el_spn_serror = 7
number low_el_aarch64_sync = 8
number low_el_aarch64_irq = 9
number low_el_aarch64_fiq = 10
number low_el_aarch64_serror = 11
number low_el_aarch32_sync = 12
number low_el_aarch32_irq = 13
number low_el_aarch32_fiq = 14
number low_el_aarch32_serror = 15

module _ {World : Type 0} where
  unfoldable pub int_register :
      IntType
      → (ℕ → World → World)
      → (ℕ → Option (ℕ → World → World))
      → ℕ
      → Option (ℕ → World → World)
  unfolding number
  int_register type dispatch tab i = if i == number type then some dispatch else tab i

  unfoldable pub not_implemented_dispatch : ℕ → World → World
  not_implemented_dispatch esr w = w

  -- The loop over all entries; entries beyond the enumeration do not exist.
  unfoldable pub init_dispatch_tab :
      (ℕ → Option (ℕ → World → World)) → ℕ → Option (ℕ → World → World)
  unfolding not_implemented_dispatch
  init_dispatch_tab tab i = if ltb i 16 then some not_implemented_dispatch else tab i

  unfoldable pub int_dispatch :
      (ℕ → Option (ℕ → World → World)) → IntType → ℕ → World → Option World
  unfolding number
  int_dispatch tab type esr_el1 w = elim (tab (number type)) [
    | none ↦ none
    | some dispatch ↦ some (dispatch esr_el1 w)
  ]
