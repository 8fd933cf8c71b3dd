-- ===== src/Register.antt =====
-- The fields of a register, and the members of a structure.
--
-- A union of `bits` with a structure of bit fields is the list of the fields from bit 0 on, each with
-- its width; the fields are packed and the first is the lowest, as the compiler lays them out on the
-- AArch64 that the code is for. A packed structure is the list of its members with their sizes.
pub mod Fields
mod Tests
use Prim.Native.String.{String}
use text.Mathlib.Text.{◌==◌}
use pi_vos.Prelude.{
  ℕ, ◌+◌, ◌*◌, ◌/◌, ◌%◌, ◌^◌, Bool, true, false, ◌||◌, List, [], ◌∷◌, if◌then◌else◌,
}

abbrev pub Layout : Type 0
Layout = List (String × ℕ)

unfoldable pub has : String → Layout → Bool
has name [] = false
has name ((field, width) ∷ rest) = (field == name) || has name rest

-- Where a field starts.
unfoldable pub offset : String → Layout → ℕ
offset name [] = 0
offset name ((field, width) ∷ rest) =
    let behind = width + offset name rest in if field == name then 0 else behind

unfoldable pub width_of : String → Layout → ℕ
width_of name [] = 0
width_of name ((field, width) ∷ rest) =
    let other = width_of name rest in if field == name then width else other

unfoldable pub total : Layout → ℕ
total [] = 0
total ((field, width) ∷ rest) = width + total rest

-- `reg.fields.name`
unfoldable pub get_field : Layout → String → ℕ → ℕ
unfolding offset width_of
get_field layout name bits = bits / 2 ^ offset name layout % 2 ^ width_of name layout

-- `reg.fields.name = value`
unfoldable pub set_field : Layout → String → ℕ → ℕ → ℕ
unfolding offset width_of
set_field layout name value bits =
    let low = offset name layout in
    let high = low + width_of name layout in
    bits / 2 ^ high * 2 ^ high + value % 2 ^ width_of name layout * 2 ^ low + bits % 2 ^ low
