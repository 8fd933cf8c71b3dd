-- ===== src/Status/Codes.antt =====
-- log.h: the codes of the components do not collide.
use pi_vos.Prelude.{ℕ, ◌+◌, ◌*◌, ◌/◌, ◌%◌, ◌^◌, ◌<◌, ◌≡◌, refl, true, arith}
use pi_vos.Status.{Origin, origin_number, err, is_negative}

err_lem : (o : Origin) → err o ≡ origin_number o * 2 ^ 16 + 2 ^ 31
unfolding err origin_number
err_lem Origin.dev = refl
err_lem Origin.call = refl
err_lem Origin.proc = refl
err_lem Origin.int = refl
err_lem Origin.utils = refl
err_lem Origin.dev_generic = refl
err_lem Origin.dev_io = refl
err_lem Origin.dev_gic = refl
err_lem Origin.dev_timer = refl

origin_number_lt : (o : Origin) → origin_number o < 9
unfolding origin_number
origin_number_lt o = ground arith

-- Every code below the first 2 ^ 16 of an origin is negative as an `int32_t`, so it is neither a
-- success nor an identifier, and it gives back the number of its origin.
pub err_origin :
    (o : Origin) (k : ℕ)
    → k < 2 ^ 16
    → (is_negative (err o + k) ≡ true) × ((err o + k) / 2 ^ 16 % 2 ^ 15 ≡ origin_number o)
err_origin o k h = (ground (arith, err_lem o), omega (arith, err_lem o, origin_number_lt o))
