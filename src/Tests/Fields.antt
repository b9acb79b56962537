-- ===== src/Tests/Fields.antt =====
-- Tests of the field of CPace.
use cmd.Prelude.{◌*◌, ◌%◌, ◌≡◌, arith, refl, length, IsBytes}
use cmd.Mote.Cpace.Field.{Fe, fe, fe_mul, fe_sub}
use cmd.Mote.Cpace.Field.Limbs.{val}
use cmd.Mote.Cpace.Field.Sums.{prime, IsReduced}
use cmd.Mote.Cpace.Field.Products.{fe_mul_lem}
use cmd.Mote.Cpace.Field.Encoded.{little_endian}
use cmd.Mote.Cpace.Elligator.{elligator2}
use cmd.Mote.Cpace.Elligator.Formula.{formula, elligator2_lem}

abbrev three : Fe
three = fe 3 0 0 0

-- The largest element, -1.
abbrev last : Fe
last = fe 0xffffffffffffffec 0xffffffffffffffff 0xffffffffffffffff 0x7fffffffffffffff

three-IsReduced : IsReduced three
three-IsReduced = ((omega arith, omega arith, omega arith, omega arith), omega arith)

last-IsReduced : IsReduced last
last-IsReduced = ((omega arith, omega arith, omega arith, omega arith), omega arith)

square_test : fe_mul last last ≡ fe 1 0 0 0
unfolding fe_mul
square_test = refl

negative_test : fe_sub three last ≡ fe 4 0 0 0
unfolding fe_sub
negative_test = refl

fe_mul_lem_example :
    IsReduced (fe_mul last three) × (val (fe_mul last three) ≡ val last * val three % prime)
fe_mul_lem_example = fe_mul_lem last three last-IsReduced.0 three-IsReduced.0

elligator2_lem_example :
    (length (elligator2 three) ≡ 32)
    × IsBytes (elligator2 three)
    × (little_endian (elligator2 three) ≡ formula (val three))
elligator2_lem_example = elligator2_lem three three-IsReduced
