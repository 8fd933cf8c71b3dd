-- ===== src/Interrupt/Table.antt =====
-- int.c: which function an exception reaches.
use pi_vos.Prelude.{ℕ, ◌<◌, ◌≡◌, Option, some, ◌==◌, if◌then◌else◌, arith}
use pi_vos.Interrupt.{IntType, number, int_register, init_dispatch_tab, int_dispatch}

number_lt : (type : IntType) → number type < 16
unfolding number
number_lt type = ground arith

-- After the initialisation and the registration of two functions in this order, an exception of the
-- second's type runs the second, one of the first's type, where it is another one, runs the first,
-- and one of any other type changes nothing.
pub int_dispatch-int_register :
    {World : Type 0} (tab : ℕ → Option (ℕ → World → World)) (first second type : IntType)
    (f g : ℕ → World → World) (esr : ℕ) (w : World)
    → int_dispatch (int_register second g (int_register first f (init_dispatch_tab tab))) type esr w
      ≡ some (
          if number type == number second
          then g esr w
          else if number type == number first
          then f esr w
          else w)
unfolding int_dispatch int_register init_dispatch_tab
int_dispatch-int_register tab first second type f g esr w = ground (arith, number_lt type)
