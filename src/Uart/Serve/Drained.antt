-- ===== src/Uart/Serve/Drained.antt =====
-- dev/uart.c: `dev_uart_kdev_isr` empties the transmit ring.
use pi_vos.Prelude.{
  ℕ, ◌+◌, ◌-◌, ◌≤◌, ◌≡◌, ap, refl, ◌∙◌, sym, Bool, true, false, Option, some, none, List, [], ◌∷◌,
  ◌++◌, Bool-cases, inl, inr, length, length-append, if◌then◌else◌, arith,
}
use mathlib.Core.List.{append-nil}
use mathlib.Core.Path.{subst}
use pi_vos.Status.{ok}
use pi_vos.Buffer.Ring.Window.{IsValid, contents, bytes_from, length-contents}
use pi_vos.Uart.{Hardware, Uart, txmis, rxmis, sync_write_all, sync_read_all, kdev_isr}
use pi_vos.Uart.Send.{sync_write-Drains}
use pi_vos.Uart.Receive.{sync_read_all-Fills}
use pi_vos.Uart.Serve.{
  HasRoom, Serves, serve, occurrences, Serves-append, Sends-Serves, Fills-Serves, progress,
}

-- An event that leaves room takes a byte off the ring, and no event puts one in.
counted :
    (ready : Bool) (n : ℕ) (p q r : List ℕ)
    → p ++ [] ≡ q ++ r
    → (ready ≡ true → length r ≤ length p - 1)
    → length p ≤ (if ready then 1 else 0) + n
    → length r ≤ n
counted true n p q r e fewer h = omega (arith, fewer refl)
counted false n p q r e fewer h =
    omega (arith, length-append q r, ap length e, ap length (append-nil p))

-- What the handler does to a driver with valid rings.
record Handles {hw : Hardware} {E : Type 0} (act : E → hw.State → hw.State) (m : Uart hw)
    (result : Option (ℕ × Uart hw)) : Type 0 where
  after : Uart hw
  sent : List ℕ
  returns : result ≡ some (ok, after)
  tx_valid : IsValid after.tx
  rx_valid : IsValid after.rx
  fifo : contents m.tx ++ [] ≡ sent ++ contents after.tx
  path : Serves hw act m.reg sent after.reg
  fewer : HasRoom hw m.reg → length (contents after.tx) ≤ length (contents m.tx) - 1

module _ {hw : Hardware} {E : Type 0} (act : E → hw.State → hw.State) where
  -- What the first half of the handler does.
  record Half (m : Uart hw) (result : Option (ℕ × Uart hw)) : Type 0 where
    status : ℕ
    middle : Uart hw
    given : List ℕ
    half_returns : result ≡ some (status, middle)
    half_valid : IsValid middle.tx
    half_fifo : contents m.tx ++ [] ≡ given ++ contents middle.tx
    half_path : Serves hw act m.reg given middle.reg
    half_rx : middle.rx ≡ m.rx
    half_fewer : HasRoom hw m.reg → length (contents middle.tx) ≤ length (contents m.tx) - 1

  abbrev asked : Uart hw → Uart hw
  asked m = record m { reg = (hw.read_mis m.reg).1 }

  transmit-Half :
      (m : Uart hw)
      → IsValid m.tx
      → Half m
          (if txmis (hw.read_mis m.reg).0 then sync_write_all (asked m) else some (ok, asked m))
  unfolding sync_write_all
  transmit-Half m v = elim (Bool-cases (txmis (hw.read_mis m.reg).0)) [
    | inl e ↦
        let d = sync_write-Drains (m.tx.size + 1) (asked m) v (omega arith) in
        rw e (record {
          status = d.status;
          middle = d.after;
          given = d.sent;
          half_returns = d.returns;
          half_valid = d.moves.ring_valid;
          half_fifo = d.moves.fifo;
          half_path = Serves.poll_mis m.reg _ d.sent (Sends-Serves act d.moves.to_device);
          half_rx = d.moves.rx_kept;
          half_fewer = λ r.
              progress (m.tx.size + 1) (asked m) d.after d.status v (omega arith) r.room d.returns;
        })
    | inr e ↦ rw e (record {
      status = ok;
      middle = asked m;
      given = [];
      half_returns = refl;
      half_valid = v;
      half_fifo = append-nil (contents m.tx);
      half_path = Serves.poll_mis m.reg _ [] (Serves.done _);
      half_rx = refl;
      half_fewer = λ r. cc (e, r.signalled);
    })
  ]

  -- The receive half keeps the transmit ring.
  receive-Handles :
      (m : Uart hw) (sent : Option (ℕ × Uart hw))
      → IsValid m.rx
      → (h : Half m sent) → sent ≡ some (h.status, h.middle)
      → Handles act m (elim sent [
        | none ↦ none
        | some (_, m1) ↦
            elim (if rxmis (hw.read_mis m.reg).0 then sync_read_all m1 else some (ok, m1)) [
              | none ↦ none
              | some (_, m2) ↦ some (ok, m2)
            ]
      ])
  receive-Handles m sent v h e = elim (Bool-cases (rxmis (hw.read_mis m.reg).0)) [
    | inl r ↦
        let f = sync_read_all-Fills h.middle (rw h.half_rx v) in
        rw (e, r, f.returns)
          (record {
            after = f.after;
            sent = h.given;
            returns = refl;
            tx_valid = rw f.tx_kept h.half_valid;
            rx_valid = f.ring_valid;
            fifo = rw f.tx_kept h.half_fifo;
            path =
                subst (λ q. Serves hw act m.reg q f.after.reg) (append-nil h.given)
                  (Serves-append act h.half_path (Fills-Serves act f));
            fewer = rw f.tx_kept h.half_fewer;
          })
    | inr r ↦
        rw (e, r)
          (record {
            after = h.middle;
            sent = h.given;
            returns = refl;
            tx_valid = h.half_valid;
            rx_valid = rw h.half_rx v;
            fifo = h.half_fifo;
            path = h.half_path;
            fewer = h.half_fewer;
          })
  ]

  kdev_isr-Handles : (m : Uart hw) → IsValid m.tx → IsValid m.rx → Handles act m (kdev_isr m)
  unfolding kdev_isr
  kdev_isr-Handles m tx rx = let h = transmit-Half m tx in receive-Handles m _ rx h h.half_returns

  serve_round :
      (e : E) (events : List E) (m middle out : Uart hw)
      → kdev_isr (record m { reg = act e m.reg }) ≡ some (ok, middle)
      → serve hw act events middle ≡ some out
      → serve hw act (e ∷ events) m ≡ some out
  unfolding serve
  serve_round e events m middle out first others = rw (serve, first) others

  -- The handler runs after each event of a list. Where the rings are valid, and some kind of event
  -- leaves the device with room and with its transmit interrupt signalled, and the list has as many
  -- events of that kind as the transmit ring holds bytes: every call of the handler returns, the
  -- ring is empty at the end, and the bytes it held are those the device was given, in their order
  -- and each right after it showed room.
  pub serve_drains :
      (ready : E → Bool) (events : List E) (m : Uart hw)
      → IsValid m.tx
      → IsValid m.rx
      → ((e : E) (s : hw.State) → ready e ≡ true → HasRoom hw (act e s))
      → length (contents m.tx) ≤ occurrences ready events
      → (out : Uart hw) × (serve hw act events m ≡ some out)
        × (contents out.tx ≡ [])
        × Serves hw act m.reg (contents m.tx) out.reg
  unfolding serve
  serve_drains ready [] m tx rx fair few =
      let no_size : m.tx.size ≡ 0 = omega (arith, length-contents m.tx) in
      let none_left : contents m.tx ≡ [] = ap (bytes_from m.tx 0) no_size in
      (m, refl, none_left, rw none_left (Serves.done m.reg))
  serve_drains ready (e ∷ events) m tx rx fair few =
      let changed : Uart hw = record m { reg = act e m.reg } in
      let h = kdev_isr-Handles changed tx rx in
      let left =
        counted (ready e) (occurrences ready events) (contents m.tx) h.sent (contents h.after.tx)
          h.fifo (λ r. h.fewer (fair e m.reg r)) few in
      let (out, runs, empty, path) =
        serve_drains ready events h.after h.tx_valid h.rx_valid fair left in
      let all = sym h.fifo ∙ append-nil (contents m.tx) in
      let whole = Serves-append act h.path path in
      (
        out,
        serve_round e events m h.after out h.returns runs,
        empty,
        Serves.event e _ _ _ (subst (λ q. Serves hw act (act e m.reg) q out.reg) all whole),
      )
