-- ===== src/Register/Fields.antt =====
-- What a write to a field does to the fields of a register.
use native.Mathlib.Nat.{
  one-le-pow, mod-lt, mod-mod, div-eq_of_lt, add-mul-div_right, add-mul-mod_self_right,
  div-div-eq-div-mul, mul_assoc, mul_comm, add-mul, mul-le-mul_right, div-add-mod',
}
use Prim.Native.String.{String}
use text.Mathlib.Text.{◌==◌}
use text.Mathlib.TextEquality.{eq_iff}
use pi_vos.Prelude.{
  ℕ, ◌+◌, ◌-◌, ◌*◌, ◌/◌, ◌%◌, ◌^◌, ◌≤◌, ◌<◌, ◌≡◌, sym, ap, ◌∙◌, arith, true, false, [], ◌∷◌, ◌⊎◌,
  inl, inr, Bool-cases,
}
use pi_vos.Word.Align.{pow_two_factor}
use pi_vos.Register.{Layout, has, offset, width_of, get_field, set_field}

pow_sum : (l w : ℕ) → 2 ^ (l + w) ≡ 2 ^ w * 2 ^ l
pow_sum l w = pow_two_factor l (l + w) (omega arith) ∙ ap (λ (k : ℕ). 2 ^ k * 2 ^ l) (omega arith)

-- The low part of a number goes away with a division, and the high part with a remainder.
shift_out : (P q r : ℕ) → r < P → (q * P + r) / P ≡ q
shift_out P q r h =
    let swap : q * P + r ≡ r + q * P = omega arith in
    let low : r / P ≡ 0 = div-eq_of_lt h in
    ap (λ (n : ℕ). n / P) swap ∙ add-mul-div_right r q (omega arith) ∙ omega (arith, low)

mask_out : (P q r : ℕ) → (q * P + r) % P ≡ r % P
mask_out P q r =
    let swap : q * P + r ≡ r + q * P = omega arith in
    ap (λ (n : ℕ). n % P) swap ∙ add-mul-mod_self_right r q P

module _ (bits l w v : ℕ) where
  -- `bits` with the `w` bits from `l` on replaced
  abbrev place : ℕ
  place = bits / 2 ^ (l + w) * 2 ^ (l + w) + v % 2 ^ w * 2 ^ l + bits % 2 ^ l

  abbrev upper : ℕ
  upper = bits / 2 ^ (l + w) * 2 ^ w + v % 2 ^ w

  place_split : place ≡ upper * 2 ^ l + bits % 2 ^ l
  place_split = omega (
    arith,
    ap (λ (t : ℕ). bits / 2 ^ (l + w) * t) (pow_sum l w),
    mul_assoc (bits / 2 ^ (l + w)) (2 ^ w) (2 ^ l),
    add-mul (bits / 2 ^ (l + w) * 2 ^ w) (v % 2 ^ w) (2 ^ l),
  )

  place_same : place / 2 ^ l % 2 ^ w ≡ v % 2 ^ w
  place_same =
      ap (λ (n : ℕ). n / 2 ^ l % 2 ^ w) place_split
      ∙ (ap (λ (n : ℕ). n % 2 ^ w)
            (shift_out (2 ^ l) upper (bits % 2 ^ l) (mod-lt bits (one-le-pow l 2 (omega arith))))
          ∙ (mask_out (2 ^ w) (bits / 2 ^ (l + w)) (v % 2 ^ w) ∙ mod-mod v (2 ^ w)))

  place_above : (k : ℕ) → l + w ≤ k → place / 2 ^ k ≡ bits / 2 ^ k
  place_above k h =
      let low : v % 2 ^ w * 2 ^ l + bits % 2 ^ l < 2 ^ (l + w) = omega (
        arith,
        pow_sum l w,
        mod-lt bits (one-le-pow l 2 (omega arith)),
        add-mul (v % 2 ^ w) 1 (2 ^ l),
        mul-le-mul_right {m = v % 2 ^ w + 1} {n = 2 ^ w} (2 ^ l)
            (omega (arith, mod-lt v (one-le-pow w 2 (omega arith)))),
      ) in
      let sum : place ≡ bits / 2 ^ (l + w) * 2 ^ (l + w) + (v % 2 ^ w * 2 ^ l + bits % 2 ^ l) =
        omega arith in
      let whole : place / 2 ^ (l + w) ≡ bits / 2 ^ (l + w) =
        ap (λ (n : ℕ). n / 2 ^ (l + w)) sum ∙ shift_out (2 ^ (l + w)) (bits / 2 ^ (l + w)) _ low in
      let power : 2 ^ k ≡ 2 ^ (l + w) * 2 ^ (k - (l + w)) =
        omega (arith, pow_two_factor (l + w) k h, mul_comm (2 ^ (l + w)) (2 ^ (k - (l + w)))) in
      rw power (
        sym (div-div-eq-div-mul place (2 ^ (l + w)) (2 ^ (k - (l + w))))
        ∙ (ap (λ (n : ℕ). n / 2 ^ (k - (l + w))) whole
            ∙ div-div-eq-div-mul bits (2 ^ (l + w)) (2 ^ (k - (l + w)))))

  place_below : (k : ℕ) → k ≤ l → place % 2 ^ k ≡ bits % 2 ^ k
  place_below k h =
      let P : ℕ = 2 ^ (l - k) in
      let e : 2 ^ l ≡ P * 2 ^ k = pow_two_factor k l h in
      let left : place ≡ upper * P * 2 ^ k + bits % 2 ^ l =
        omega (arith, place_split, ap (λ (t : ℕ). upper * t) e, mul_assoc upper P (2 ^ k)) in
      let right : bits ≡ bits / 2 ^ l * P * 2 ^ k + bits % 2 ^ l = omega (
        arith,
        div-add-mod' bits (2 ^ l),
        ap (λ (t : ℕ). bits / 2 ^ l * t) e,
        mul_assoc (bits / 2 ^ l) P (2 ^ k),
      ) in
      ap (λ (n : ℕ). n % 2 ^ k) left
      ∙ (mask_out (2 ^ k) (upper * P) (bits % 2 ^ l)
          ∙ sym (
              ap (λ (n : ℕ). n % 2 ^ k) right ∙ mask_out (2 ^ k) (bits / 2 ^ l * P) (bits % 2 ^ l)))

-- A field reads the bits below its end alone.
field_mod : (n l w : ℕ) → n / 2 ^ l % 2 ^ w ≡ n % 2 ^ (l + w) / 2 ^ l % 2 ^ w
field_mod n l w =
    let q : ℕ = n / 2 ^ (l + w) in
    let r : ℕ = n % 2 ^ (l + w) in
    let sum : n ≡ r + q * 2 ^ w * 2 ^ l = omega (
      arith,
      div-add-mod' n (2 ^ (l + w)),
      ap (λ (t : ℕ). q * t) (pow_sum l w),
      mul_assoc q (2 ^ w) (2 ^ l),
    ) in
    ap (λ (m : ℕ). m / 2 ^ l % 2 ^ w) sum
    ∙ (ap (λ (m : ℕ). m % 2 ^ w) (add-mul-div_right r (q * 2 ^ w) (one-le-pow l 2 (omega arith)))
        ∙ add-mul-mod_self_right (r / 2 ^ l) q (2 ^ w))

-- Two fields of a layout do not overlap.
fields_apart :
    (layout : Layout) (name other : String)
    → (name == other) ≡ false
    → has name layout ≡ true
    → has other layout ≡ true
    → (offset name layout + width_of name layout ≤ offset other layout)
      ⊎ (offset other layout + width_of other layout ≤ offset name layout)
unfolding has offset width_of
fields_apart [] name other ne h1 h2 = absurd (ground arith)
fields_apart ((field, width) ∷ rest) name other ne h1 h2 = elim (Bool-cases (field == name)) [
  | inl here ↦ elim (Bool-cases (field == other)) [
    | inl both ↦
        let same : name ≡ other = sym ((eq_iff field name).0 here) ∙ (eq_iff field other).0 both in
        let e : (name == other) ≡ true = (eq_iff name other).1 same in absurd (ground (arith, e))
    | inr behind ↦ rw (here, behind) (inl (omega arith))
  ]
  | inr away ↦ elim (Bool-cases (field == other)) [
    | inl there ↦ rw (away, there) (inr (omega arith))
    | inr behind ↦
        let r1 : has name rest ≡ true = ground (arith, h1) in
        let r2 : has other rest ≡ true = ground (arith, h2) in
        let apart = fields_apart rest name other ne r1 r2 in rw (away, behind) (omega arith)
  ]
]

-- A field of a register reads back what is written to it, cut to its width, and the write leaves each
-- other field of the register as it was.
pub get_field-set_field :
    (layout : Layout) (name other : String) (value bits : ℕ)
    → (name == other) ≡ false
    → has name layout ≡ true
    → has other layout ≡ true
    → let out = set_field layout name value bits in
      (get_field layout name out ≡ value % 2 ^ width_of name layout)
      × (get_field layout other out ≡ get_field layout other bits)
unfolding get_field set_field
get_field-set_field layout name other value bits ne h1 h2 =
    let l : ℕ = offset name layout in
    let w : ℕ = width_of name layout in
    let l2 : ℕ = offset other layout in
    let w2 : ℕ = width_of other layout in
    (
      place_same bits l w value,
      elim (fields_apart layout name other ne h1 h2) [
        | inl above ↦ ap (λ (n : ℕ). n % 2 ^ w2) (place_above bits l w value l2 above)
        | inr below ↦
            field_mod (place bits l w value) l2 w2
            ∙ (ap (λ (n : ℕ). n / 2 ^ l2 % 2 ^ w2) (place_below bits l w value (l2 + w2) below)
                ∙ sym (field_mod bits l2 w2))
      ],
    )
