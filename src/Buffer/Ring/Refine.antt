-- ===== src/Buffer/Ring/Refine.antt =====
-- ring.h: a valid ring is a bounded queue of bytes.
use pi_vos.Prelude.{
  ℕ, ◌+◌, ◌<◌, ◌≡◌, ap, sym, Option, none, some, List, [], ◌∷◌, ◌++◌, ◌==◌, length, drop,
  if◌then◌else◌, arith, min, ◌⊎◌, Bool-cases, ==_iff, inl, inr,
}
use mathlib.Core.Path.{subst}
use native.Mathlib.Nat.{zero-mod}
use pi_vos.Buffer.Ring.{Ring, write, read, free, reset}
use pi_vos.Buffer.Ring.Window.{
  contents, IsValid, length-contents, grown, contents-grown, grown-IsValid, contents-advanced,
  contents-cons, advanced-IsValid, bytes_from,
}

-- The bounded queue that a ring implements.
abbrev pub push : ℕ → List ℕ → ℕ → Option (List ℕ)
push capacity q c = if length q == capacity then none else some (q ++ (c ∷ []))

abbrev pub pop : List ℕ → Option (ℕ × List ℕ)
pop [] = none
pop (c ∷ q) = some (c, q)

abbrev pub contents_of : Option Ring → Option (List ℕ)
contents_of none = none
contents_of (some r) = some (contents r)

abbrev pub read_contents : Option (ℕ × Ring) → Option (ℕ × List ℕ)
read_contents none = none
read_contents (some (c, r)) = some (c, contents r)

-- What fits is written, and nothing else.
write_fits : (r : Ring) (c : ℕ) → IsValid r → r.size < r.capacity → write r c ≡ some (grown r c)
unfolding write
write_fits r c v h = ground (arith, v)

-- A write to a ring with room is a push on the bytes it holds, and a write to a full one fails, as
-- the push does.
pub write_refines :
    (r : Ring) (c : ℕ) → IsValid r → contents_of (write r c) ≡ push r.capacity (contents r) c
unfolding write
write_refines r c v = elim (Bool-cases (r.size == r.capacity)) [
  | inl e ↦ rw (e, length-contents r, e)
  | inr e ↦ rw (e, length-contents r, e) (ap some (contents-grown r c v (ground (arith, v))))
]

-- A read of a valid ring is a pop of the bytes it holds: the oldest byte comes out, and an empty
-- ring gives the error.
pub read_refines : (r : Ring) → IsValid r → read_contents (read r) ≡ pop (contents r)
unfolding read
read_refines r v = elim (Bool-cases (r.size == 0)) [
  | inl e ↦ rw (e, (==_iff r.size 0).0 e)
  | inr e ↦ rw e (ap (λ q. pop q) (sym (contents-cons r v (ground (arith, e)))))
]

-- A free of `n` bytes drops the `n` oldest, or all when there are fewer, and returns how many.
pub free_refines :
    (r : Ring) (n : ℕ)
    → IsValid r
    → let (freed, s) = free r n in
      (freed ≡ min n (length (contents r))) × (contents s ≡ drop freed (contents r))
unfolding free
free_refines r n v =
    (ground (arith, length-contents r), contents-advanced r (free r n).0 v (ground arith))

-- A valid ring stays valid under a write, a read, a free and a reset.
pub steps-IsValid :
    (r s : Ring) (c n : ℕ)
    → IsValid r
    → (write r c ≡ some s) ⊎ ((read r ≡ some (c, s)) ⊎ (((free r n).1 ≡ s) ⊎ (reset r ≡ s)))
    → IsValid s
unfolding write read free reset
steps-IsValid r s c n v (inl e) = ground (arith, grown-IsValid r c v)
steps-IsValid r s c n v (inr (inl e)) = ground (arith, advanced-IsValid r 1 v)
steps-IsValid r s c n v (inr (inr (inl e))) =
    subst IsValid e (advanced-IsValid r (free r n).0 v (ground arith))
steps-IsValid r s c n v (inr (inr (inr e))) = subst IsValid e (record {
  has_room = v.has_room;
  no_wrap = v.no_wrap;
  storage = v.storage;
  size_in = omega arith;
  read_in = v.has_room;
  write_at = sym (zero-mod r.capacity);
})

-- What a successful or a failed call says of the bytes.
pub read-cons :
    (r s : Ring) (c : ℕ)
    → IsValid r
    → read r ≡ some (c, s)
    → (contents r ≡ c ∷ contents s) × (s.size + 1 ≡ r.size) × (s.capacity ≡ r.capacity)
unfolding read
read-cons r s c v e = ground (arith, v, contents-cons r v)

pub read-none : (r : Ring) → read r ≡ none → contents r ≡ []
unfolding read
read-none r e = ap (bytes_from r 0) empty
  where
    empty : r.size ≡ 0
    empty = ground arith

pub write-snoc :
    (r s : Ring) (c : ℕ)
    → IsValid r
    → write r c ≡ some s
    → (contents s ≡ contents r ++ (c ∷ [])) × (s.size ≡ r.size + 1) × (s.capacity ≡ r.capacity)
unfolding write
write-snoc r s c v e = ground (arith, v, contents-grown r c v)

pub write-none : (r : Ring) (c : ℕ) → write r c ≡ none → r.size ≡ r.capacity
unfolding write
write-none r c e = ground arith
