-- ===== src/Buffer/Ring/Window.antt =====
-- ring.h: the bytes a ring holds, its invariant, and how a write and a read move them.
use pi_vos.Prelude.{
  ℕ, zero, suc, ◌+◌, ◌-◌, ◌%◌, ◌^◌, ◌≤◌, ◌<◌, ◌≡◌, ◌≢◌, ap, ap₂, refl, ◌∙◌, sym, List, [], ◌∷◌,
  ◌++◌, get_or, set, length, length-set, drop, arith, get_or-set_self, get_or-set_ne,
}
use native.Mathlib.Nat.{
  mod-add-mod, mod-eq_of_lt, mod-eq-sub-mod, mod-lt, add-zero, add-suc, suc-add, zero-add,
}
use native.Mathlib.Decide.{dec_lt}
use pi_vos.Word.{u32, sub32}
use pi_vos.Buffer.Ring.{Ring}

-- `i` counts from the oldest byte.
abbrev pub byte_at : Ring → ℕ → ℕ
byte_at r i = get_or r.buffer ((r.read_idx + i) % r.capacity) 0

abbrev pub bytes_from : Ring → ℕ → ℕ → List ℕ
bytes_from r i zero = []
bytes_from r i (suc n) = byte_at r i ∷ bytes_from r (suc i) n

-- The bytes a ring holds, oldest first.
abbrev pub contents : Ring → List ℕ
contents r = bytes_from r 0 r.size

pub record IsValid (r : Ring) : Type 0 where
  pub has_room : 0 < r.capacity
  pub no_wrap : r.capacity ≤ 2 ^ 31
  pub storage : r.capacity ≤ length r.buffer
  pub size_in : r.size ≤ r.capacity
  pub read_in : r.read_idx < r.capacity
  pub write_at : r.write_idx ≡ (r.read_idx + r.size) % r.capacity

length-bytes_from : (r : Ring) (i n : ℕ) → length (bytes_from r i n) ≡ n
length-bytes_from r i zero = refl
length-bytes_from r i (suc n) = ap suc (length-bytes_from r (suc i) n)

pub length-contents : (r : Ring) → length (contents r) ≡ r.size
length-contents r = length-bytes_from r 0 r.size

-- Two positions less than a lap apart differ.
positions_ne : (c r i j : ℕ) → r < c → i < j → j < c → (r + i) % c ≢ (r + j) % c
positions_ne c r i j hr hi hj = elim (dec_lt (r + j) c) [
  | yes p ↦ omega (arith, mod-eq_of_lt {n = r + i} {m = c} (omega arith), mod-eq_of_lt p)
  | no p ↦ elim (dec_lt (r + i) c) [
    | yes q ↦ omega (
      arith,
      mod-eq_of_lt q,
      mod-eq-sub-mod {n = r + j} {m = c} (omega arith),
      mod-eq_of_lt {n = r + j - c} {m = c} (omega arith),
    )
    | no q ↦ omega (
      arith,
      mod-eq-sub-mod {n = r + i} {m = c} (omega arith),
      mod-eq_of_lt {n = r + i - c} {m = c} (omega arith),
      mod-eq-sub-mod {n = r + j} {m = c} (omega arith),
      mod-eq_of_lt {n = r + j - c} {m = c} (omega arith),
    )
  ]
]

-- Rings with the same bytes at the same positions hold the same.
bytes_from-agree :
    (r s : Ring) (i j n : ℕ)
    → ((k : ℕ) → k < n → byte_at r (i + k) ≡ byte_at s (j + k))
    → bytes_from r i n ≡ bytes_from s j n
bytes_from-agree r s i j zero h = refl
bytes_from-agree r s i j (suc n) h = ap₂ ◌∷◌ here (bytes_from-agree r s (suc i) (suc j) n later)
  where
    here : byte_at r i ≡ byte_at s j
    here = cc (h 0 (omega arith), add-zero i, add-zero j)

    later : (k : ℕ) → k < n → byte_at r (suc i + k) ≡ byte_at s (suc j + k)
    later k p =
        rw (suc-add i k, suc-add j k, ← add-suc i k, ← add-suc j k) (h (suc k) (omega arith))

-- The last byte is split off.
bytes_from-snoc :
    (r : Ring) (i n : ℕ) → bytes_from r i (suc n) ≡ bytes_from r i n ++ (byte_at r (i + n) ∷ [])
bytes_from-snoc r i zero = rw (add-zero i)
bytes_from-snoc r i (suc n) =
    ap (λ q. byte_at r i ∷ q) (rw (add-suc i n, ← suc-add i n) (bytes_from-snoc r (suc i) n))

-- What the ring holds after a write that found room.
abbrev pub grown : Ring → ℕ → Ring
grown r c = record r {
  buffer = set r.buffer r.write_idx c;
  write_idx = u32 (r.write_idx + 1) % r.capacity;
  size = u32 (r.size + 1);
}

pub grown-IsValid : (r : Ring) (c : ℕ) → IsValid r → r.size < r.capacity → IsValid (grown r c)
grown-IsValid r c v h = record {
  has_room = v.has_room;
  no_wrap = v.no_wrap;
  storage = rw (length-set r.buffer r.write_idx c) v.storage;
  size_in = omega (arith, v);
  read_in = v.read_in;
  write_at = next;
}
  where
    at : r.write_idx < r.capacity
    at = rw (v.write_at) (mod-lt (r.read_idx + r.size) v.has_room)

    next : u32 (r.write_idx + 1) % r.capacity ≡ (r.read_idx + u32 (r.size + 1)) % r.capacity
    next =
        ap (λ i. i % r.capacity) (omega (arith, v))
        ∙ ap (λ i. (i + 1) % r.capacity) v.write_at
        ∙ mod-add-mod (r.read_idx + r.size) r.capacity 1
        ∙ ap (λ i. i % r.capacity) (omega (arith, v))

pub contents-grown :
    (r : Ring) (c : ℕ)
    → IsValid r
    → r.size < r.capacity
    → contents (grown r c) ≡ contents r ++ (c ∷ [])
contents-grown r c v h =
    ap (bytes_from (grown r c) 0) count
    ∙ bytes_from-snoc (grown r c) 0 r.size
    ∙ ap₂ (λ (q : List ℕ) (x : ℕ). q ++ (x ∷ [])) (bytes_from-agree (grown r c) r 0 0 r.size older)
        newest
  where
    count : u32 (r.size + 1) ≡ suc r.size
    count = omega (arith, v)

    older : (k : ℕ) → k < r.size → byte_at (grown r c) (0 + k) ≡ byte_at r (0 + k)
    older k p = get_or-set_ne r.buffer r.write_idx ((r.read_idx + (0 + k)) % r.capacity) c 0 (λ e.
        positions_ne r.capacity r.read_idx (0 + k) r.size v.read_in (omega arith) h
          (sym e ∙ v.write_at))

    newest : byte_at (grown r c) (0 + r.size) ≡ c
    newest =
        ap (λ i. get_or (set r.buffer r.write_idx c) i 0)
          (ap (λ i. (r.read_idx + i) % r.capacity) (zero-add r.size) ∙ sym v.write_at)
        ∙ get_or-set_self r.buffer r.write_idx c 0
            (omega (arith, v, mod-lt (r.read_idx + r.size) v.has_room))

-- The ring after its oldest `n` bytes are gone.
abbrev pub advanced : Ring → ℕ → Ring
advanced r n = record r { read_idx = u32 (r.read_idx + n) % r.capacity; size = sub32 r.size n }

byte_at-advanced :
    (r : Ring) (n k : ℕ)
    → IsValid r
    → n ≤ r.size
    → byte_at (advanced r n) (0 + k) ≡ byte_at r (n + k)
byte_at-advanced r n k v h = ap (λ i. get_or r.buffer i 0) index
  where
    index :
        (u32 (r.read_idx + n) % r.capacity + (0 + k)) % r.capacity
        ≡ (r.read_idx + (n + k)) % r.capacity
    index = rw mod-add-mod (ap (λ i. i % r.capacity) (omega (arith, v)))

drop-bytes_from : (r : Ring) (i m n : ℕ) → drop m (bytes_from r i (m + n)) ≡ bytes_from r (i + m) n
drop-bytes_from r i zero n = ap₂ (bytes_from r) (sym (add-zero i)) (zero-add n)
drop-bytes_from r i (suc m) n =
    rw (suc-add m n, add-suc i m, ← suc-add i m) (drop-bytes_from r (suc i) m n)

pub contents-advanced :
    (r : Ring) (n : ℕ) → IsValid r → n ≤ r.size → contents (advanced r n) ≡ drop n (contents r)
contents-advanced r n v h =
    ap (bytes_from (advanced r n) 0) left
    ∙ bytes_from-agree (advanced r n) r 0 n (r.size - n) (λ k _. byte_at-advanced r n k v h)
    ∙ sym (ap (λ i. bytes_from r i (r.size - n)) (zero-add n))
    ∙ sym (drop-bytes_from r 0 n (r.size - n))
    ∙ ap (λ m. drop n (bytes_from r 0 m)) whole
  where
    left : sub32 r.size n ≡ r.size - n
    left = omega (arith, v)

    whole : n + (r.size - n) ≡ r.size
    whole = omega arith

-- The oldest byte of a ring that is not empty, and the others.
pub contents-cons :
    (r : Ring)
    → IsValid r
    → 0 < r.size
    → contents r ≡ get_or r.buffer r.read_idx 0 ∷ contents (advanced r 1)
contents-cons r v h =
    split
    ∙ ap₂ ◌∷◌ (ap (λ i. get_or r.buffer i 0) first)
        (ap (drop 1) (sym split) ∙ sym (contents-advanced r 1 v h))
  where
    count : r.size ≡ suc (r.size - 1)
    count = omega arith

    split : contents r ≡ byte_at r 0 ∷ bytes_from r 1 (r.size - 1)
    split = ap (bytes_from r 0) count

    first : (r.read_idx + 0) % r.capacity ≡ r.read_idx
    first = ap (λ i. i % r.capacity) (add-zero r.read_idx) ∙ mod-eq_of_lt v.read_in

pub advanced-IsValid : (r : Ring) (n : ℕ) → IsValid r → n ≤ r.size → IsValid (advanced r n)
advanced-IsValid r n v h = record {
  has_room = v.has_room;
  no_wrap = v.no_wrap;
  storage = v.storage;
  size_in = omega (arith, v);
  read_in = mod-lt (u32 (r.read_idx + n)) v.has_room;
  write_at = at;
}
  where
    at : r.write_idx ≡ (u32 (r.read_idx + n) % r.capacity + sub32 r.size n) % r.capacity
    at =
        v.write_at
        ∙ ap (λ i. i % r.capacity) (omega (arith, v))
        ∙ sym (mod-add-mod (u32 (r.read_idx + n)) r.capacity (sub32 r.size n))
