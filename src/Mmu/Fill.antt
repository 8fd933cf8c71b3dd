-- ===== src/Mmu/Fill.antt =====
-- Writing a run of entries of a table, and what it leaves alone.
use pi_vos.Prelude.{
  ℕ, zero, suc, ◌+◌, ◌*◌, ◌≤◌, ◌<◌, ◌≡◌, ◌≢◌, refl, arith, ◌==◌, ◌∙◌, ◌⊎◌, inl, inr, Bool-cases,
}
use pi_vos.Mmu.Tables.{Memory, read_entry, write_entry}

pub write_entry_apart :
    (mem : Memory) (table n v addr : ℕ)
    → addr ≢ table + 8 * n
    → write_entry mem table n v addr ≡ mem addr
unfolding write_entry
write_entry_apart mem table n v addr h = ground arith

pub read_entry-write_entry :
    (mem : Memory) (table n v : ℕ) → read_entry (write_entry mem table n v) table n ≡ v
unfolding write_entry
read_entry-write_entry mem table n v = ground arith

-- Writing `value i` to the entries from `n` on, `left` of them.
unfoldable pub fill : (ℕ → ℕ) → ℕ → ℕ → ℕ → Memory → Memory
fill value table zero n mem = mem
fill value table (suc left) n mem =
    fill value table left (n + 1) (write_entry mem table n (value n))

-- A filled table, entry by entry, and what is left alone.
module _ (value : ℕ → ℕ) (table : ℕ) where
  pub fill_outside :
      (left n : ℕ) (mem : Memory) (addr : ℕ)
      → (addr < table + 8 * n) ⊎ (table + 8 * (n + left) ≤ addr)
      → fill value table left n mem addr ≡ mem addr
  unfolding fill write_entry
  fill_outside zero n mem addr out = refl
  fill_outside (suc left) n mem addr out =
      fill_outside left (n + 1) (write_entry mem table n (value n)) addr (omega arith)
      ∙ ground arith

  pub fill_inside :
      (left n : ℕ) (mem : Memory) (i : ℕ)
      → n ≤ i
      → i < n + left
      → fill value table left n mem (table + 8 * i) ≡ value i
  unfolding fill write_entry
  fill_inside zero n mem i l h = absurd (omega arith)
  fill_inside (suc left) n mem i l h = elim (Bool-cases (i == n)) [
    | inl here ↦
        fill_outside left (n + 1) (write_entry mem table n (value n)) (table + 8 * i)
          (inl (ground arith))
        ∙ ground arith
    | inr later ↦
        fill_inside left (n + 1) (write_entry mem table n (value n)) i (ground arith) (omega arith)
  ]

-- The word of the split entry is not one of the new table.
abbrev pub IsApart : ℕ → ℕ → Type 0
IsApart new_table addr = (addr < new_table) ⊎ (new_table + 4096 ≤ addr)
