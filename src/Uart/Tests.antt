-- ===== src/Uart/Tests.antt =====
-- A device that takes every byte and shows an empty receiver.
use pi_vos.Prelude.{
  ℕ, ◌+◌, ◌^◌, ◌≡◌, refl, arith, List, [], ◌∷◌, ◌++◌, Bool, true, false, some, if◌then◌else◌,
}
use pi_vos.Buffer.Ring.{Ring}
use pi_vos.Buffer.Ring.Window.{IsValid, contents}
use pi_vos.Uart.{Hardware, Uart, txmis, txff, kdev_write, sync_read_all}
use pi_vos.Uart.Receive.{Fills, sync_read_all-Fills}
use pi_vos.Uart.Serve.{HasRoom, Serves, serve}
use pi_vos.Uart.Serve.Drained.{serve_drains}
use pi_vos.Uart.Write.{Accepts, kdev_write-Accepts}

abbrev sink : Hardware
sink = record {
  State = List ℕ;
  read_fr = λ s. (2 ^ 4, s);
  read_mis = λ s. (0, s);
  read_dr = λ s. (0, s);
  write_dr = λ dr s. s ++ (dr ∷ []);
  unset_dr = λ s. 2 ^ 8;
}

abbrev ring : Ring
ring = record { buffer = 0 ∷ 65 ∷ []; capacity = 2; size = 1; read_idx = 1; write_idx = 0 }

abbrev uart : Uart sink
uart = record { tx = ring; rx = ring; reg = []; daif = 0 }

ring-IsValid : IsValid ring
ring-IsValid = record {
  has_room = omega arith;
  no_wrap = omega arith;
  storage = omega arith;
  size_in = omega arith;
  read_in = omega arith;
  write_at = refl;
}

kdev_write-Accepts_example : Accepts (66 ∷ 67 ∷ []) 0 uart (kdev_write (66 ∷ 67 ∷ []) uart)
kdev_write-Accepts_example = kdev_write-Accepts (66 ∷ 67 ∷ []) uart (omega arith) ring-IsValid

sync_read_all-Fills_example : Fills uart (sync_read_all uart)
sync_read_all-Fills_example = sync_read_all-Fills uart ring-IsValid

-- A device with room for one byte, which its events empty or leave alone.
abbrev one_byte : Hardware
one_byte = record {
  State = Bool × List ℕ;
  read_fr = λ s. (if s.0 then 2 ^ 4 + 2 ^ 5 else 2 ^ 4, s);
  read_mis = λ s. (if s.0 then 0 else 2 ^ 5, s);
  read_dr = λ s. (0, s);
  write_dr = λ dr s. (true, s.1 ++ (dr ∷ []));
  unset_dr = λ s. 2 ^ 8;
}

abbrev shift_out : Bool → Bool × List ℕ → Bool × List ℕ
shift_out e s = (if e then false else s.0, s.1)

abbrev is_ready : Bool → Bool
is_ready e = e

abbrev busy : Uart one_byte
busy = record { tx = ring; rx = ring; reg = (true, []); daif = 0 }

shift_out-HasRoom :
    (e : Bool) (s : Bool × List ℕ) → is_ready e ≡ true → HasRoom one_byte (shift_out e s)
unfolding txmis txff pi_vos.Word.test_bit
shift_out-HasRoom true s h = record { signalled = refl; room = refl }
shift_out-HasRoom false s h = cc h

serve_drains_example :
    (out : Uart one_byte) × (serve one_byte shift_out (false ∷ true ∷ []) busy ≡ some out)
    × (contents out.tx ≡ [])
    × Serves one_byte shift_out (true, []) (65 ∷ []) out.reg
serve_drains_example =
    serve_drains shift_out is_ready (false ∷ true ∷ []) busy ring-IsValid ring-IsValid
      shift_out-HasRoom (omega arith)
