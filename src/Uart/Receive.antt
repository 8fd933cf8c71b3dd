-- ===== src/Uart/Receive.antt =====
-- dev/uart.c: `dev_uart_sync_read`, the way of the bytes from the device into the receive ring.
use pi_vos.Prelude.{
  ◌⊎◌, true, ℕ, zero, suc, ◌+◌, ◌-◌, ◌<◌, ◌≡◌, ap, refl, ◌∙◌, sym, Option, some, List, [], ◌∷◌,
  ◌++◌, false, Bool-cases, inl, inr, ◌==◌, arith, Option-cases,
}
use mathlib.Core.List.{append-nil, append_assoc}
use pi_vos.Status.{minus_one}
use pi_vos.Buffer.Ring
use pi_vos.Buffer.Ring.{Ring}
use pi_vos.Buffer.Ring.Window.{IsValid, contents}
use pi_vos.Buffer.Ring.Refine.{steps-IsValid, write-snoc, write-none}
use pi_vos.Uart.{Hardware, Uart, rxfe, data_field, sync_read, sync_read_all}

-- The device hands over these bytes, in this order, and each only after it said that it has one.
pub data Receives (hw : Hardware) : hw.State → List ℕ → hw.State → Type 0 where
  none_more : (s : hw.State) → Receives hw s [] s
  receive :
      (s t : hw.State) (q : List ℕ)
      → rxfe (hw.read_fr s).0 ≡ false
      → Receives hw (hw.read_dr (hw.read_fr s).1).1 q t
      → Receives hw s (data_field (hw.read_dr (hw.read_fr s).1).0 ∷ q) t

-- What `sync_read` does to a driver: it returns, with status 0 where the device showed an empty
-- receiver when it was polled last, and else with -1, where the ring is full.
pub record Fills {hw : Hardware} (m : Uart hw) (result : Option (ℕ × Uart hw)) : Type 0 where
  pub status : ℕ
  pub after : Uart hw
  pub got : List ℕ
  pub returns : result ≡ some (status, after)
  pub ring_valid : IsValid after.rx
  pub fifo : contents after.rx ≡ contents m.rx ++ got
  pub last : hw.State
  pub from_device : Receives hw m.reg got last
  pub last_poll : after.reg ≡ (hw.read_fr last).1
  pub tx_kept : after.tx ≡ m.tx
  pub daif_kept : after.daif ≡ m.daif
  pub why :
      ((status ≡ 0) × (rxfe (hw.read_fr last).0 ≡ true))
      ⊎ ((status ≡ minus_one) × (after.rx.size ≡ after.rx.capacity))

room_left : (r : Ring) → IsValid r → Ring.available r ≡ r.capacity - r.size
unfolding Ring.available
room_left r v = omega (arith, v)

has_room : (r : Ring) → IsValid r → (Ring.available r == 0) ≡ false → r.size < r.capacity
has_room r v h = ground (arith, h, v, room_left r v)

module _ {hw : Hardware} where
  abbrev polled : Uart hw → Uart hw
  polled m = record m { reg = (hw.read_fr m.reg).1 }

  stop :
      (m : Uart hw) (status : ℕ) (result : Option (ℕ × Uart hw))
      → IsValid m.rx
      → result ≡ some (status, polled m)
      → ((status ≡ 0) × (rxfe (hw.read_fr m.reg).0 ≡ true))
        ⊎ ((status ≡ minus_one) × (m.rx.size ≡ m.rx.capacity))
      → Fills m result
  stop m status result v e h = record {
    status = status;
    after = polled m;
    got = [];
    returns = e;
    ring_valid = v;
    fifo = sym (append-nil (contents m.rx));
    last = m.reg;
    from_device = Receives.none_more m.reg;
    last_poll = refl;
    tx_kept = refl;
    daif_kept = refl;
    why = h;
  }

  abbrev handed : Uart hw → ℕ × hw.State
  handed m = hw.read_dr (hw.read_fr m.reg).1

  -- One byte is received, and the rest follows.
  after_one :
      (m : Uart hw) (rx : Ring) (result : Option (ℕ × Uart hw))
      → rxfe (hw.read_fr m.reg).0 ≡ false
      → contents rx ≡ contents m.rx ++ (data_field (handed m).0 ∷ [])
      → Fills (record m { rx = rx; reg = (handed m).1 }) result
      → Fills m result
  after_one m rx result some_byte e f = record {
    status = f.status;
    after = f.after;
    got = data_field (handed m).0 ∷ f.got;
    returns = f.returns;
    ring_valid = f.ring_valid;
    fifo =
        f.fifo
        ∙ ap (λ q. q ++ f.got) e
        ∙ append_assoc (contents m.rx) (data_field (handed m).0 ∷ []) f.got;
    last = f.last;
    last_poll = f.last_poll;
    from_device = Receives.receive m.reg _ _ some_byte f.from_device;
    tx_kept = f.tx_kept;
    daif_kept = f.daif_kept;
    why = f.why;
  }

  sync_read-Fills :
      (fuel : ℕ) (m : Uart hw)
      → IsValid m.rx
      → m.rx.capacity - m.rx.size < fuel
      → Fills m (sync_read fuel m)
  unfolding sync_read
  sync_read-Fills zero m v h = absurd (omega arith)
  sync_read-Fills (suc fuel) m v h = elim (Bool-cases (rxfe (hw.read_fr m.reg).0)) [
    | inl e ↦ rw e (stop m 0 _ v refl (inl (refl, e)))
    | inr e ↦ elim (Bool-cases (Ring.available m.rx == 0)) [
      | inl a ↦
          rw (e, a) (stop m minus_one _ v refl (inr (refl, ground (arith, a, v, room_left m.rx v))))
      | inr a ↦ elim (Option-cases (Ring.write m.rx (data_field (handed m).0))) [
        | inl w ↦ absurd (ground (arith, a, v, room_left m.rx v, write-none m.rx _ w))
        | inr (rx, w) ↦
            let valid : IsValid rx = steps-IsValid m.rx rx _ 0 v (inl w) in
            let one = write-snoc m.rx rx _ v w in
            rw (e, a, w)
              (after_one m rx _ e one.0 (
                sync_read-Fills fuel (record m { rx = rx; reg = (handed m).1 }) valid
                  (omega (arith, one.1, one.2, v, has_room m.rx v a))))
      ]
    ]
  ]

  -- The receive loop of a UART with a valid receive ring returns. It appends to the ring the bytes
  -- that the device hands over, in their order, each after the device showed one; it stops
  -- either with status 0, when the device showed an empty receiver at the last poll, or with -1, when the
  -- ring is full; it keeps the ring valid, and changes neither the transmit ring
  -- nor the interrupt mask.
  pub sync_read_all-Fills : (m : Uart hw) → IsValid m.rx → Fills m (sync_read_all m)
  unfolding sync_read_all
  sync_read_all-Fills m v =
      sync_read-Fills (Ring.available m.rx + 1) m v (omega (arith, room_left m.rx v))
