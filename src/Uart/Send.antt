-- ===== src/Uart/Send.antt =====
-- dev/uart.c: the way of the bytes from a call to the device.
use pi_vos.Prelude.{
  ℕ, zero, suc, ◌<◌, ◌≡◌, ap, refl, Option, some, List, [], ◌∷◌, ◌++◌, false, Bool-cases, inl, inr,
  arith, Option-cases,
}
use mathlib.Core.List.{append-nil}
use pi_vos.Status.{minus_one}
use pi_vos.Buffer.Ring
use pi_vos.Buffer.Ring.{Ring}
use pi_vos.Buffer.Ring.Window.{IsValid, contents}
use pi_vos.Buffer.Ring.Refine.{steps-IsValid, read-cons, read-none}
use pi_vos.Uart.{send_data, Hardware, Uart, txff, sync_write}

-- The device takes these bytes, in this order, and each only after it said that it has room.
pub data Sends (hw : Hardware) : hw.State → List ℕ → hw.State → Type 0 where
  done : (s : hw.State) → Sends hw s [] s
  poll : (s t : hw.State) (q : List ℕ) → Sends hw (hw.read_fr s).1 q t → Sends hw s q t
  send :
      (s t : hw.State) (c : ℕ) (q : List ℕ)
      → txff (hw.read_fr s).0 ≡ false
      → Sends hw (send_data hw c (hw.read_fr s).1) q t
      → Sends hw s (c ∷ q) t

pub Sends-append :
    {hw : Hardware} {s t u : hw.State} {p q : List ℕ}
    → Sends hw s p t
    → Sends hw t q u
    → Sends hw s (p ++ q) u
Sends-append (done s) h = h
Sends-append (poll s t q g) h = poll s _ _ (Sends-append g h)
Sends-append (send s t c q room g) h = send s _ c _ room (Sends-append g h)

-- Between two states of the driver, the bytes `sent` left the ring for the device, and `written` were
-- put into the ring.
pub record Moves {hw : Hardware} (m m' : Uart hw) (written sent : List ℕ) : Type 0 where
  pub ring_valid : IsValid m'.tx
  pub fifo : contents m.tx ++ written ≡ sent ++ contents m'.tx
  pub to_device : Sends hw m.reg sent m'.reg
  pub rx_kept : m'.rx ≡ m.rx
  pub daif_kept : m'.daif ≡ m.daif

-- What `sync_write` does to a driver: it returns, and with status 0 the ring is empty.
pub record Drains {hw : Hardware} (m : Uart hw) (result : Option (ℕ × Uart hw)) : Type 0 where
  pub status : ℕ
  pub after : Uart hw
  pub sent : List ℕ
  pub returns : result ≡ some (status, after)
  pub moves : Moves m after [] sent
  pub emptied : (status ≡ 0) → contents after.tx ≡ []

module _ {hw : Hardware} where
  abbrev polled : Uart hw → Uart hw
  polled m = record m { reg = (hw.read_fr m.reg).1 }

  -- Nothing moves while the code looks at `FR`.
  stop :
      (m : Uart hw) (status : ℕ) (result : Option (ℕ × Uart hw))
      → IsValid m.tx
      → result ≡ some (status, polled m)
      → (status ≡ 0 → contents m.tx ≡ [])
      → Drains m result
  stop m status result v e h = record {
    status = status;
    after = polled m;
    sent = [];
    returns = e;
    moves = record {
      ring_valid = v;
      fifo = append-nil (contents m.tx);
      to_device = poll m.reg _ [] (done _);
      rx_kept = refl;
      daif_kept = refl;
    };
    emptied = h;
  }

  -- One byte is sent, and the rest follows.
  after_one :
      (m : Uart hw) (c : ℕ) (tx : Ring) (result : Option (ℕ × Uart hw))
      → txff (hw.read_fr m.reg).0 ≡ false
      → contents m.tx ≡ c ∷ contents tx
      → Drains (record m { tx = tx; reg = send_data hw c (hw.read_fr m.reg).1 }) result
      → Drains m result
  after_one m c tx result room e d = record {
    status = d.status;
    after = d.after;
    sent = c ∷ d.sent;
    returns = d.returns;
    moves = record {
      ring_valid = d.moves.ring_valid;
      fifo = rw e (ap (λ q. c ∷ q) d.moves.fifo);
      to_device = send m.reg _ c _ room d.moves.to_device;
      rx_kept = d.moves.rx_kept;
      daif_kept = d.moves.daif_kept;
    };
    emptied = d.emptied;
  }

  pub sync_write-Drains :
      (fuel : ℕ) (m : Uart hw) → IsValid m.tx → m.tx.size < fuel → Drains m (sync_write fuel m)
  unfolding sync_write
  sync_write-Drains zero m v h = absurd (omega arith)
  sync_write-Drains (suc fuel) m v h = elim (Bool-cases (txff (hw.read_fr m.reg).0)) [
    | inl e ↦ rw e (stop m minus_one _ v refl (λ z. absurd (ground (arith, z))))
    | inr e ↦ elim (Option-cases (Ring.read m.tx)) [
      | inl r ↦ rw (e, r) (stop m 0 _ v refl (λ _. read-none m.tx r))
      | inr ((c, tx), r) ↦
          let valid : IsValid tx = steps-IsValid m.tx tx c 0 v (inr (inl r)) in
          let gone = read-cons m.tx tx c v r in
          rw (e, r)
            (after_one m c tx _ e gone.0 (
              sync_write-Drains fuel
                (record m { tx = tx; reg = send_data hw c (hw.read_fr m.reg).1 }) valid
                (omega (arith, gone.1))))
    ]
  ]
