-- ===== src/Uart/Serve.antt =====
-- dev/uart.c: the interrupt handler run again and again, with a device that changes between the
-- interrupts.
pub mod Drained
use pi_vos.Prelude.{
  ℕ, zero, suc, ◌+◌, ◌-◌, ◌≤◌, ◌<◌, ◌≡◌, ap, refl, ◌∙◌, sym, Bool, true, false, Option, some, none,
  List, [], ◌∷◌, ◌++◌, Bool-cases, inl, inr, length, length-append, if◌then◌else◌, arith,
  Option-cases,
}
use mathlib.Core.List.{append-nil, append_assoc}
use mathlib.Core.Path.{subst}
use pi_vos.Word.{u8}
use pi_vos.Status.{ok}
use pi_vos.Buffer.Ring
use pi_vos.Buffer.Ring.{Ring}
use pi_vos.Buffer.Ring.Window.{IsValid, contents, bytes_from, length-contents}
use pi_vos.Buffer.Ring.Refine.{steps-IsValid, read-cons, read-none}
use pi_vos.Uart.{
  send_data, Hardware, Uart, txff, rxfe, txmis, rxmis, sync_write, sync_write_all, sync_read_all,
  kdev_isr,
}
use pi_vos.Uart.Send.{Sends, Moves, Drains, sync_write-Drains}
use pi_vos.Uart.Receive.{Receives, Fills, sync_read_all-Fills}

-- The device signals its transmit interrupt, and then shows room.
pub record HasRoom (hw : Hardware) (s : hw.State) : Type 0 where
  pub signalled : txmis (hw.read_mis s).0 ≡ true
  pub room : txff (hw.read_fr (hw.read_mis s).1).0 ≡ false

module _ (hw : Hardware) {E : Type 0} (act : E → hw.State → hw.State) where
  -- The driver hands the device these bytes, in this order, each right after it saw room, and
  -- otherwise reads registers, while the events change the device.
  pub data Serves : hw.State → List ℕ → hw.State → Type 0 where
    done : (s : hw.State) → Serves s [] s
    event : (e : E) (s t : hw.State) (q : List ℕ) → Serves (act e s) q t → Serves s q t
    poll_fr : (s t : hw.State) (q : List ℕ) → Serves (hw.read_fr s).1 q t → Serves s q t
    poll_mis : (s t : hw.State) (q : List ℕ) → Serves (hw.read_mis s).1 q t → Serves s q t
    take_dr : (s t : hw.State) (q : List ℕ) → Serves (hw.read_dr s).1 q t → Serves s q t
    send :
        (s t : hw.State) (c : ℕ) (q : List ℕ)
        → txff (hw.read_fr s).0 ≡ false
        → Serves (send_data hw c (hw.read_fr s).1) q t
        → Serves s (c ∷ q) t

  -- An interrupt after each event.
  unfoldable pub serve : List E → Uart hw → Option (Uart hw)
  serve [] m = some m
  serve (e ∷ events) m = elim (kdev_isr (record m { reg = act e m.reg })) [
    | none ↦ none
    | some (_, m') ↦ serve events m'
  ]

-- How many events of a list are of a kind.
abbrev pub occurrences : {E : Type 0} → (E → Bool) → List E → ℕ
occurrences test [] = 0
occurrences test (e ∷ events) = (if test e then 1 else 0) + occurrences test events

module _ {hw : Hardware} {E : Type 0} (act : E → hw.State → hw.State) where
  pub Serves-append :
      {s t u : hw.State} {p q : List ℕ}
      → Serves hw act s p t
      → Serves hw act t q u
      → Serves hw act s (p ++ q) u
  Serves-append (Serves.done s) h = h
  Serves-append (Serves.event e s t q g) h = Serves.event e s _ _ (Serves-append g h)
  Serves-append (Serves.poll_fr s t q g) h = Serves.poll_fr s _ _ (Serves-append g h)
  Serves-append (Serves.poll_mis s t q g) h = Serves.poll_mis s _ _ (Serves-append g h)
  Serves-append (Serves.take_dr s t q g) h = Serves.take_dr s _ _ (Serves-append g h)
  Serves-append (Serves.send s t c q room g) h = Serves.send s _ c _ room (Serves-append g h)

  pub Sends-Serves : {s t : hw.State} {q : List ℕ} → Sends hw s q t → Serves hw act s q t
  Sends-Serves (Sends.done s) = Serves.done s
  Sends-Serves (Sends.poll s t q h) = Serves.poll_fr s t q (Sends-Serves h)
  Sends-Serves (Sends.send s t c q room h) = Serves.send s t c q room (Sends-Serves h)

  pub Receives-Serves : {s t : hw.State} {q : List ℕ} → Receives hw s q t → Serves hw act s [] t
  Receives-Serves (Receives.none_more s) = Serves.done s
  Receives-Serves (Receives.receive s t q some_byte h) =
      Serves.poll_fr s _ [] (Serves.take_dr _ _ [] (Receives-Serves h))

  pub Fills-Serves :
      {m : Uart hw} {result : Option (ℕ × Uart hw)}
      → (f : Fills m result) → Serves hw act m.reg [] f.after.reg
  Fills-Serves f =
      rw (f.last_poll)
        (Serves-append (Receives-Serves f.from_device) (Serves.poll_fr f.last _ [] (Serves.done _)))

shrinks : (c : ℕ) (p q r : List ℕ) → p ++ [] ≡ q ++ r → length r ≤ length (c ∷ p) - 1
shrinks c p q r e = omega (arith, length-append q r, ap length e, ap length (append-nil p))

-- Where the device has room, a byte leaves the ring, if it holds one.
pub progress :
    {hw : Hardware} (fuel : ℕ) (m after : Uart hw) (status : ℕ)
    → IsValid m.tx
    → m.tx.size < fuel
    → txff (hw.read_fr m.reg).0 ≡ false
    → sync_write fuel m ≡ some (status, after)
    → length (contents after.tx) ≤ length (contents m.tx) - 1
unfolding sync_write
progress zero m after status v h room e = absurd (omega arith)
progress {hw} (suc fuel) m after status v h room e = elim (Option-cases (Ring.read m.tx)) [
  | inl r ↦
      let stops : sync_write (suc fuel) m ≡ some (0, record m { reg = (hw.read_fr m.reg).1 }) =
        rw (room, r) in
      rw (← some_after _ _ _ _ (sym stops ∙ e), read-none m.tx r) (omega arith)
  | inr ((c, tx), r) ↦
      let valid : IsValid tx = steps-IsValid m.tx tx c 0 v (inr (inl r)) in
      let gone = read-cons m.tx tx c v r in
      let next : Uart hw = record m { tx = tx; reg = send_data hw c (hw.read_fr m.reg).1 } in
      let d = sync_write-Drains fuel next valid (omega (arith, gone.1)) in
      let goes : sync_write (suc fuel) m ≡ sync_write fuel next = rw (room, r) in
      rw (← some_after _ _ _ _ (sym d.returns ∙ sym goes ∙ e), gone.0)
        (shrinks c (contents tx) d.sent _ d.moves.fifo)
]
  where
    some_after :
        (a b : ℕ) (x y : Uart hw)
        → ◌≡◌ {A = Option (ℕ × Uart hw)} (some (a, x)) (some (b, y))
        → x ≡ y
    some_after a b x y e = cc
