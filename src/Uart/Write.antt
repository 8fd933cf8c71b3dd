-- ===== src/Uart/Write.antt =====
-- dev/uart.c: `dev_uart_kdev_write`.
use pi_vos.Prelude.{
  ltb, true, ◌<◌, ◌^◌, ℕ, suc, ◌+◌, ◌≤◌, ◌≡◌, ◌≢◌, ap, refl, ◌∙◌, sym, Option, some, List, [], ◌∷◌,
  ◌++◌, inl, inr, length, take, arith, Option-cases,
}
use mathlib.Core.List.{append-nil, append_assoc}
use native.Mathlib.Nat.{add-zero}
use pi_vos.Buffer.Ring
use pi_vos.Buffer.Ring.{Ring}
use pi_vos.Buffer.Ring.Window.{IsValid, contents}
use pi_vos.Buffer.Ring.Refine.{steps-IsValid, write-snoc, write-none}
use pi_vos.Uart.{
  Hardware, Uart, sync_write_all, write_loop, kdev_write, idx_bound, irq_lock, irq_unlock,
}
use pi_vos.Uart.Send.{Sends, Sends-append, Moves, Drains, sync_write-Drains}

fifo_trans :
    (a d w s1 s2 e : List ℕ) (c : ℕ)
    → (a ++ (c ∷ [])) ++ [] ≡ s1 ++ d
    → d ++ w ≡ s2 ++ e
    → a ++ (c ∷ w) ≡ (s1 ++ s2) ++ e
fifo_trans a d w s1 s2 e c h g =
    sym (append_assoc a (c ∷ []) w)
    ∙ ap (λ q. q ++ w) (sym (append-nil (a ++ (c ∷ []))) ∙ h)
    ∙ append_assoc s1 d w
    ∙ ap (λ q. s1 ++ q) g
    ∙ sym (append_assoc s1 s2 e)

-- What a call of `dev_uart_kdev_write` does: it returns the number of bytes it took, and it leaves
-- bytes out only when the ring is full.
pub record Accepts {hw : Hardware} (src : List ℕ) (idx : ℕ) (m : Uart hw)
    (result : Option (ℕ × Uart hw)) : Type 0 where
  pub taken : ℕ
  pub after : Uart hw
  pub sent : List ℕ
  pub returns : result ≡ some (idx + taken, after)
  pub taken_in : taken ≤ length src
  pub moves : Moves m after (take taken src) sent
  pub short : taken ≢ length src → after.tx.size ≡ after.tx.capacity

module _ {hw : Hardware} where
  none_taken :
      (src : List ℕ) (idx : ℕ) (m : Uart hw) (result : Option (ℕ × Uart hw))
      → IsValid m.tx
      → result ≡ some (idx, m)
      → (0 ≢ length src → m.tx.size ≡ m.tx.capacity)
      → Accepts src idx m result
  none_taken src idx m result v e h = record {
    taken = 0;
    after = m;
    sent = [];
    returns = rw (add-zero idx) e;
    taken_in = omega arith;
    moves = record {
      ring_valid = v;
      fifo = append-nil (contents m.tx);
      to_device = Sends.done m.reg;
      rx_kept = refl;
      daif_kept = refl;
    };
    short = h;
  }

  -- A byte is taken, the ring is drained, and the rest of the call follows.
  one_taken :
      (c : ℕ) (src : List ℕ) (idx : ℕ) (m : Uart hw) (tx : Ring)
      (drained result : Option (ℕ × Uart hw))
      → contents tx ≡ contents m.tx ++ (c ∷ [])
      → (d : Drains (record m { tx = tx }) drained) → Accepts src (idx + 1) d.after result
      → Accepts (c ∷ src) idx m result
  one_taken c src idx m tx drained result e d rest = record {
    taken = suc rest.taken;
    after = rest.after;
    sent = d.sent ++ rest.sent;
    returns = rest.returns ∙ ap (λ i. some (i, rest.after)) (omega arith);
    taken_in = omega (arith, rest.taken_in);
    moves = record {
      ring_valid = rest.moves.ring_valid;
      fifo =
          fifo_trans (contents m.tx) (contents d.after.tx) (take rest.taken src) d.sent rest.sent
            (contents rest.after.tx) c (ap (λ q. q ++ []) (sym e) ∙ d.moves.fifo) rest.moves.fifo;
      to_device = Sends-append d.moves.to_device rest.moves.to_device;
      rx_kept = rest.moves.rx_kept ∙ d.moves.rx_kept;
      daif_kept = rest.moves.daif_kept ∙ d.moves.daif_kept;
    };
    short = λ n. rest.short (λ q. n (ap suc q));
  }

  write_loop-Accepts :
      (src : List ℕ) (idx : ℕ) (m : Uart hw)
      → idx + length src < 2 ^ 31
      → IsValid m.tx
      → Accepts src idx m (write_loop src idx m)
  unfolding write_loop sync_write_all
  write_loop-Accepts [] idx m short v = none_taken [] idx m _ v refl (λ n. absurd (n refl))
  write_loop-Accepts (c ∷ src) idx m short v = elim (Option-cases (Ring.write m.tx c)) [
    | inl w ↦ rw (write_loop, w) (none_taken (c ∷ src) idx m _ v refl (λ _. write-none m.tx c w))
    | inr (tx, w) ↦
        let pushed : Uart hw = record m { tx = tx } in
        let valid : IsValid tx = steps-IsValid m.tx tx c 0 v (inl w) in
        let d = sync_write-Drains (tx.size + 1) pushed valid (omega arith) in
        let rest = write_loop-Accepts src (idx + 1) d.after (omega arith) d.moves.ring_valid in
        let in_bounds : ltb (idx + 1) idx_bound ≡ true = ground arith in
        rw (write_loop, w, d.returns, in_bounds)
          (one_taken c src idx m tx _ _ (write-snoc m.tx tx c v w).0 d rest)
  ]

  -- The mask is put back.
  unlocked :
      (src : List ℕ) (m : Uart hw) (result : Option (ℕ × Uart hw))
      → (d : Accepts src 0 (irq_lock m).1 result)
      → Accepts src 0 m (some (0 + d.taken, irq_unlock m.daif d.after))
  unfolding irq_lock irq_unlock
  unlocked src m result d = record {
    taken = d.taken;
    after = irq_unlock m.daif d.after;
    sent = d.sent;
    returns = refl;
    taken_in = d.taken_in;
    moves = record {
      ring_valid = d.moves.ring_valid;
      fifo = d.moves.fifo;
      to_device = d.moves.to_device;
      rx_kept = d.moves.rx_kept;
      daif_kept = refl;
    };
    short = d.short;
  }

  -- A write of fewer than 2^31 bytes to a UART with a valid transmit ring returns. It takes a prefix of the bytes, all of
  -- them unless the ring is full at the end; the bytes that were in the ring followed by those it
  -- takes are the bytes that reached the device, in order, followed by those in the ring. The device
  -- took each only after it showed room, the ring stays valid, and the receive ring and the
  -- interrupt mask are as before.
  pub kdev_write-Accepts :
      (src : List ℕ) (m : Uart hw)
      → length src < 2 ^ 31
      → IsValid m.tx
      → Accepts src 0 m (kdev_write src m)
  unfolding kdev_write irq_lock irq_unlock
  kdev_write-Accepts src m short v =
      let d = write_loop-Accepts src 0 (irq_lock m).1 (omega arith) v in
      rw (kdev_write, d.returns) (unlocked src m _ d)
