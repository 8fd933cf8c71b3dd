-- ===== src/Memory/Blocks/Loop.antt =====
-- mmu.c: the loop of `mmu_map_units` over the rounds for blocks.
use pi_vos.Prelude.{
  ℕ, zero, suc, ◌+◌, ◌-◌, ◌*◌, ◌%◌, ◌^◌, ◌≤◌, ◌<◌, ◌≡◌, refl, arith, ◌∙◌, sym, Option, some, ap,
}
use mathlib.Core.Path.{subst}
use pi_vos.Allocator.{Allocator}
use pi_vos.Allocator.Valid.{IsValid}
use pi_vos.Allocator.Sequence.{after}
use pi_vos.Allocator.Sequence.Low.{free_low}
use pi_vos.Mmu.Tables.{Memory, create_block_entry}
use pi_vos.Mmu.Walk.{Machine}
use pi_vos.Mmu.Walk.Steps.{table_at}
use pi_vos.Mmu.Insert.{map_loop}
use pi_vos.Proc.{one_to_one}
use pi_vos.Memory.{source, get_phys_space}
use pi_vos.Memory.Blocks.{Shape, Tree, Tree-agree, placed, placed_outside}
use pi_vos.Memory.Blocks.Units.{IsFit}
use pi_vos.Memory.Blocks.Rounds.{
  tables_for, in_round, tables_for_rest, placed_both, round_lem, Round-from,
}

module _ (a : Allocator) (v : IsValid a) (pages : a.page_size ≡ 4096) (p0 p1 type n0 : ℕ)
    (p1_small : p1 < 2 ^ 24) where
  -- The loop from block `n0 + done` on: what it leaves.
  pub record Mapped (count done : ℕ) (t : Shape) (e : ℕ → ℕ)
      (result : Option (Unit {0} × Machine source)) : Type 0 where
    pub shape : Shape
    pub out : Memory
    pub returns : result ≡ some (tt, record { mem = out; pages = after a shape.taken })
    pub tree_after : Tree a p0 p1 shape (placed type (n0 + done) count e) out
    pub few_taken : shape.taken ≤ t.taken + tables_for (n0 + done) count

  nothing_left :
      (t : Shape) (e : ℕ → ℕ) (mem : Memory) (done : ℕ)
      {result : Option (Unit {0} × Machine source)}
      → Tree a p0 p1 t e mem
      → result ≡ some (tt, record { mem = mem; pages = after a t.taken })
      → Mapped 0 done t e result
  nothing_left t e mem done tree returns = record {
    shape = t;
    out = mem;
    returns = returns;
    tree_after = Tree-agree a p0 p1 t e (placed type (n0 + done) 0 e) mem (λ n. ground arith) tree;
    few_taken = omega arith;
  }

  pub loop-Mapped :
      (fuel count done : ℕ) (t : Shape) (e : ℕ → ℕ) (mem : Memory)
      → count ≤ fuel
      → n0 + done + count ≤ 2 ^ 18
      → t.taken + tables_for (n0 + done) count ≤ free_low a
      → ((n : ℕ) → n0 + done ≤ n → n < n0 + done + count → IsFit type (e n))
      → Tree a p0 p1 t e mem
      → Mapped count done t e (
          map_loop source
            (get_phys_space one_to_one)
            create_block_entry
            2
            type
            fuel
            (table_at p0)
            0
            (n0 * 2 ^ 21)
            (done * 2 ^ 21)
            count
            (record { mem = mem; pages = after a t.taken }))
  unfolding map_loop
  loop-Mapped zero zero done t e mem enough fits few fit tree = nothing_left t e mem done tree refl
  loop-Mapped (suc fuel) zero done t e mem enough fits few fit tree =
      nothing_left t e mem done tree refl
  loop-Mapped zero (suc count) done t e mem enough fits few fit tree = absurd (omega arith)
  loop-Mapped (suc fuel) (suc count) done t e mem enough fits few fit tree =
      let u : ℕ = in_round (n0 + done) (suc count) in
      let rest = tables_for_rest (n0 + done) (suc count) (omega arith) in
      let next : n0 + done + u ≡ n0 + (done + u) = omega arith in
      let fewer : tables_for (n0 + (done + u)) (suc count - u) + 1
          ≤ tables_for (n0 + done) (suc count) =
        subst (λ n. tables_for n (suc count - u) + 1 ≤ tables_for (n0 + done) (suc count)) next
          rest in
      let r =
        Round-from a v pages p0 p1 type p1_small t e mem (n0 + done) u (omega arith) (omega arith)
          (omega (arith, rest)) (λ k low high. fit k low (omega arith)) tree in
      let still_fit : (k : ℕ)
          → n0 + (done + u) ≤ k
          → k < n0 + (done + u) + (suc count - u)
          → IsFit type (placed type (n0 + done) u e k) =
        λ k low high.
          subst (λ w. IsFit type w) (sym (placed_outside type e (n0 + done) u k (omega arith)))
            (fit k (omega arith) (omega arith)) in
      let whole : u + (suc count - u) ≡ suc count = omega arith in
      let later =
        loop-Mapped fuel (suc count - u) (done + u) r.next_shape (placed type (n0 + done) u e)
          r.mapped (omega arith) (omega arith) (omega (arith, fewer, r.at_most_one)) still_fit
          r.next_tree in
      record {
        shape = later.shape;
        out = later.out;
        returns =
            round_lem type (table_at p0) n0 fuel (suc count) done ((n0 + done) % 512) u r.table _ _
              _ (omega arith) (omega arith) refl refl fits r.walks r.maps
            ∙ later.returns;
        tree_after =
            Tree-agree a p0 p1 later.shape _ (placed type (n0 + done) (suc count) e) later.out
              (λ k.
                ap (λ from. placed type from (suc count - u) (placed type (n0 + done) u e) k)
                  (sym next)
                ∙ placed_both type e (n0 + done) u (suc count - u) k
                ∙ ap (λ c. placed type (n0 + done) c e k) whole)
              later.tree_after;
        few_taken = omega (arith, later.few_taken, r.at_most_one, fewer);
      }
