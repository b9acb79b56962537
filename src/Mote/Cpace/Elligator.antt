-- ===== src/Mote/Cpace/Elligator.antt =====
-- mote/internal/cpace/elligator.go: the map of a field element to a point of the curve.
pub mod Formula
use cmd.Prelude.{Bytes}
use cmd.Mote.Cpace.Field.{
  Fe, fe, fe_zero, fe_one, fe_add, fe_sub, fe_mul, fe_square, fe_invert, fe_chi, fe_bytes,
}

abbrev pub fe_a : Fe
fe_a = fe 486662 0 0 0

abbrev pub fe_a_half : Fe
fe_a_half = fe 243331 0 0 0

-- feNegA, which init computes
unfoldable pub fe_neg_a : Fe
unfolding fe_sub
fe_neg_a = fe_sub fe_zero fe_a

-- v = -A / (1 + 2*r^2)
unfoldable pub map_v : Fe → Fe
unfolding fe_neg_a fe_add fe_mul fe_square fe_invert
map_v r =
    let t = fe_square r in let t' = fe_add t t in fe_mul fe_neg_a (fe_invert (fe_add t' fe_one))

-- w = v * (v^2 + A*v + 1)
unfoldable pub curve_w : Fe → Fe
unfolding fe_add fe_mul fe_square
curve_w v = fe_mul (fe_add (fe_add (fe_square v) (fe_mul fe_a v)) fe_one) v

-- elligator2
unfoldable pub elligator2 : Fe → Bytes
unfolding map_v curve_w fe_sub fe_mul fe_chi fe_bytes
elligator2 r =
    let v = map_v r in
    let eps = fe_chi (curve_w v) in
    fe_bytes (fe_sub (fe_mul eps v) (fe_mul (fe_sub fe_one eps) fe_a_half))
