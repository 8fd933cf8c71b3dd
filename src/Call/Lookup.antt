-- ===== src/Call/Lookup.antt =====
-- call.c: what a registered call is found by.
use pi_vos.Prelude.{
  ℕ, zero, suc, [], ◌∷◌, ◌≤◌, ◌<◌, ◌≡◌, ◌≢◌, none, some, List, ◌==◌, set, get_elem?, get_or, length,
  if◌then◌else◌, arith, get_or-set_self, get_or-set_ne, get_elem?-eq-get_or, ◌⊎◌, length-set, refl,
  ◌∙◌, sym,
}
use native.Mathlib.Decide.{ℕ_discrete}
use pi_vos.Word.{u16}
use pi_vos.Call.{Table, buffer_size, register, dispatch}

get_elem?-beyond {ℓ} : {A : Type ℓ} (xs : List A) (i : ℕ) → length xs ≤ i → get_elem? xs i ≡ none
get_elem?-beyond [] i h = refl
get_elem?-beyond (x ∷ xs) zero h = absurd (omega arith)
get_elem?-beyond (x ∷ xs) (suc i) h = get_elem?-beyond xs i (omega arith)

module _ {Machine : Type 0} where
  registered :
      (id : ℕ) (call : Machine → Machine) (kcalls : Table Machine)
      → id < buffer_size
      → get_or kcalls id none ≡ none
      → register id call kcalls ≡ (id, set kcalls id (some call))
  unfolding register
  registered id call kcalls h e = ground arith

  -- Within the bound, `dispatch` runs what the entry holds.
  pub dispatch_entry :
      (esr : ℕ) (unsupported : Machine → Machine) (kcalls : Table Machine) (m : Machine)
      → length kcalls ≡ buffer_size
      → u16 esr < buffer_size
      → dispatch unsupported kcalls esr m ≡ elim (get_or kcalls (u16 esr) none) [
        | none ↦ some (unsupported m)
        | some call ↦ some (call m)
      ]
  unfolding dispatch
  dispatch_entry esr unsupported kcalls m l b =
      ground (arith, get_elem?-eq-get_or kcalls (u16 esr) none)

  -- In a table of the right length, a call that is registered under a free number below the bound is
  -- what a system call of that number runs; a system call of another number within the bound runs
  -- what it ran before.
  pub dispatch-register :
      (id esr : ℕ) (call unsupported : Machine → Machine) (kcalls : Table Machine) (m : Machine)
      → length kcalls ≡ buffer_size
      → id < buffer_size
      → get_or kcalls id none ≡ none
      → u16 esr < buffer_size
      → ((register id call kcalls).0 ≡ id)
        × (length (register id call kcalls).1 ≡ buffer_size)
        × (dispatch unsupported (register id call kcalls).1 esr m
            ≡ (if u16 esr == id then some (call m) else dispatch unsupported kcalls esr m))
  dispatch-register id esr call unsupported kcalls m l h e b =
      rw (registered id call kcalls h e) (refl, length-set kcalls id (some call) ∙ l, found)
    where
      after : Table Machine
      after = set kcalls id (some call)

      found :
          dispatch unsupported after esr m
          ≡ (if u16 esr == id then some (call m) else dispatch unsupported kcalls esr m)
      found =
          rw
            (
              dispatch_entry esr unsupported after m (length-set kcalls id (some call) ∙ l) b,
              dispatch_entry esr unsupported kcalls m l b,
            )
            (elim (ℕ_discrete (u16 esr) id) [
              | yes p ↦
                  rw p (ground (arith, get_or-set_self kcalls id (some call) none (omega arith)))
              | no p ↦
                  ground
                    (arith, get_or-set_ne kcalls id (u16 esr) (some call) none (λ q. p (sym q)))
            ])

  -- A second registration of a number, or one out of range, changes nothing, and its status is
  -- negative.
  pub register_refused :
      (id : ℕ) (call : Machine → Machine) (kcalls : Table Machine)
      → (buffer_size ≤ id) ⊎ (get_or kcalls id none ≢ none)
      → (register id call kcalls).1 ≡ kcalls
  unfolding register
  register_refused id call kcalls h = ground arith

  -- Whatever is registered, the system call number 1024 passes the guard and reads past the end of
  -- the table; numbers above it are refused.
  pub dispatch-bound :
      (esr : ℕ) (unsupported : Machine → Machine) (kcalls : Table Machine) (m : Machine)
      → length kcalls ≡ buffer_size
      → buffer_size ≤ u16 esr
      → dispatch unsupported kcalls esr m
        ≡ (if u16 esr == buffer_size then none else some (unsupported m))
  unfolding dispatch
  dispatch-bound esr unsupported kcalls m l h = ground (arith, get_elem?-beyond kcalls (u16 esr))
