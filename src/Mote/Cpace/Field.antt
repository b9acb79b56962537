-- ===== src/Mote/Cpace/Field.antt =====
-- mote/internal/cpace/field.go: the field of 2^255-19 in four 64-bit limbs, the lowest first.
pub mod Limbs
pub mod Sums
pub mod Products
pub mod Powers
pub mod Encoded
use Prim.Native.Nat.{bit_and, bit_xor}
use cmd.Prelude.{
  ℕ, zero, suc, ◌+◌, ◌-◌, ◌*◌, ◌/◌, ◌%◌, ◌^◌, ◌++◌, Bytes, drop, ltb, ◌==◌, if◌then◌else◌,
}
use cmd.Prelude.Digits.{uint64_le, put_uint64_le}

abbrev pub word : ℕ
word = 2 ^ 64

pub record Fe : Type 0 where
  pub x0 : ℕ
  pub x1 : ℕ
  pub x2 : ℕ
  pub x3 : ℕ

abbrev pub fe : ℕ → ℕ → ℕ → ℕ → Fe
fe a b c d = record { x0 = a; x1 = b; x2 = c; x3 = d }

abbrev pub fe_zero : Fe
fe_zero = fe 0 0 0 0

abbrev pub fe_one : Fe
fe_one = fe 1 0 0 0

abbrev pub fe_p : Fe
fe_p = fe 0xffffffffffffffed 0xffffffffffffffff 0xffffffffffffffff 0x7fffffffffffffff

-- The exponents of feInvert and feChi.
abbrev pub fe_inv_exp : Fe
fe_inv_exp = fe 0xffffffffffffffeb 0xffffffffffffffff 0xffffffffffffffff 0x7fffffffffffffff

abbrev pub fe_chi_exp : Fe
fe_chi_exp = fe 0xfffffffffffffff6 0xffffffffffffffff 0xffffffffffffffff 0x3fffffffffffffff

-- bits.Add64: the sum and the carry out.
unfoldable pub add64 : ℕ → ℕ → ℕ → ℕ × ℕ
add64 x y carry = ((x + y + carry) % word, (x + y + carry) / word)

-- bits.Sub64: the difference and the borrow out, for a borrow of 0 or 1.
unfoldable pub sub64 : ℕ → ℕ → ℕ → ℕ × ℕ
sub64 x y borrow = ((x + word - y - borrow) % word, if ltb x (y + borrow) then 1 else 0)

-- bits.Mul64: the upper and the lower half of the product.
unfoldable pub mul64 : ℕ → ℕ → ℕ × ℕ
mul64 x y = (x * y / word, x * y % word)

-- -b
unfoldable pub mask : ℕ → ℕ
mask b = (word - b) % word

-- t ^ (m & (t ^ x))
unfoldable pub choose : ℕ → ℕ → ℕ → ℕ
choose m t x = bit_xor t (bit_and m (bit_xor t x))

-- The four limbs of a sum, and the carry out of the last.
unfoldable pub add_limbs : Fe → Fe → Fe × ℕ
unfolding add64
add_limbs x y =
    let (t0, c0) = add64 x.x0 y.x0 0 in
    let (t1, c1) = add64 x.x1 y.x1 c0 in
    let (t2, c2) = add64 x.x2 y.x2 c1 in let (t3, c3) = add64 x.x3 y.x3 c2 in (fe t0 t1 t2 t3, c3)

unfoldable pub sub_limbs : Fe → Fe → Fe × ℕ
unfolding sub64
sub_limbs x y =
    let (t0, b0) = sub64 x.x0 y.x0 0 in
    let (t1, b1) = sub64 x.x1 y.x1 b0 in
    let (t2, b2) = sub64 x.x2 y.x2 b1 in let (t3, b3) = sub64 x.x3 y.x3 b2 in (fe t0 t1 t2 t3, b3)

-- feReduce
unfoldable pub fe_reduce : Fe → Fe
unfolding sub_limbs mask choose
fe_reduce x =
    let (t, b) = sub_limbs x fe_p in
    let m = mask b in
    fe (choose m t.x0 x.x0) (choose m t.x1 x.x1) (choose m t.x2 x.x2) (choose m t.x3 x.x3)

-- feAdd
unfoldable pub fe_add : Fe → Fe → Fe
unfolding add_limbs fe_reduce
fe_add x y = let (t, _) = add_limbs x y in fe_reduce t

-- feSub
unfoldable pub fe_sub : Fe → Fe → Fe
unfolding sub_limbs add_limbs mask
fe_sub x y =
    let (t, b) = sub_limbs x y in
    let m = mask b in
    let p = fe (bit_and fe_p.x0 m) (bit_and fe_p.x1 m) (bit_and fe_p.x2 m) (bit_and fe_p.x3 m) in
    let (z, _) = add_limbs t p in z

-- One step of the inner loop of feMul, on the limb r[i+j] and the carry: the new limb and carry.
unfoldable pub mul_step : ℕ → ℕ → ℕ → ℕ → ℕ × ℕ
unfolding mul64 add64
mul_step x y r carry =
    let (hi, lo) = mul64 x y in
    let (lo1, c1) = add64 lo r 0 in
    let (lo2, c2) = add64 lo1 carry 0 in (lo2, (hi + c1 + c2) % word)

-- The inner loop of feMul for one limb of x: the four limbs that it changes, and the last carry.
unfoldable pub mul_row : ℕ → Fe → Fe → Fe × ℕ
unfolding mul_step
mul_row x y r =
    let (l0, c0) = mul_step x y.x0 r.x0 0 in
    let (l1, c1) = mul_step x y.x1 r.x1 c0 in
    let (l2, c2) = mul_step x y.x2 r.x2 c1 in
    let (l3, c3) = mul_step x y.x3 r.x3 c2 in (fe l0 l1 l2 l3, c3)

-- The outer loop: the lower and the upper four limbs of r.
unfoldable pub mul_rows : Fe → Fe → Fe × Fe
unfolding mul_row
mul_rows x y =
    let (r0, k0) = mul_row x.x0 y fe_zero in
    let (r1, k1) = mul_row x.x1 y (fe r0.x1 r0.x2 r0.x3 k0) in
    let (r2, k2) = mul_row x.x2 y (fe r1.x1 r1.x2 r1.x3 k1) in
    let (r3, k3) = mul_row x.x3 y (fe r2.x1 r2.x2 r2.x3 k2) in
    (fe r0.x0 r1.x0 r2.x0 r3.x0, fe r3.x1 r3.x2 r3.x3 k3)

-- One step of the loop that folds the upper half.
unfoldable pub fold_step : ℕ → ℕ → ℕ × ℕ
unfolding mul64 add64
fold_step r carry =
    let (hi, lo) = mul64 r 38 in let (lo1, c) = add64 lo carry 0 in (lo1, (hi + c) % word)

-- 38 times the upper half: four limbs and h[4].
unfoldable pub fold_upper : Fe → Fe × ℕ
unfolding fold_step
fold_upper r =
    let (h0, c0) = fold_step r.x0 0 in
    let (h1, c1) = fold_step r.x1 c0 in
    let (h2, c2) = fold_step r.x2 c1 in let (h3, c3) = fold_step r.x3 c2 in (fe h0 h1 h2 h3, c3)

-- Adds n to the lowest limb, and carries.
unfoldable pub add_low : Fe → ℕ → Fe × ℕ
unfolding add_limbs
add_low t n = add_limbs t (fe n 0 0 0)

-- feMul behind the multiplication: 2^256 is 38 and 2^255 is 19.
unfoldable pub fold_down : Fe → Fe → Fe
unfolding fold_upper add_limbs add_low fe_reduce
fold_down low high =
    let (h, h4) = fold_upper high in
    let (t, c) = add_limbs low h in
    let top = (h4 + c) % word in
    let (t', c') = add_low t (top * 38 % word) in
    let (t'', _) = add_low t' (c' * 38) in
    let b = t''.x3 / 2 ^ 63 in
    let (u, _) = add_low (fe t''.x0 t''.x1 t''.x2 (t''.x3 % 2 ^ 63)) (b * 19) in fe_reduce u

-- feMul
unfoldable pub fe_mul : Fe → Fe → Fe
unfolding mul_rows fold_down
fe_mul x y = let (low, high) = mul_rows x y in fold_down low high

-- feSquare
unfoldable pub fe_square : Fe → Fe
unfolding fe_mul
fe_square x = fe_mul x x

-- The inner loop of fePow, over the n lowest bits of the limb e, the highest first.
unfoldable pub pow_bits : Fe → ℕ → ℕ → Fe → Fe
unfolding fe_square fe_mul
pow_bits x e zero r = r
pow_bits x e (suc j) r =
    let s = fe_square r in pow_bits x e j (if e / 2 ^ j % 2 == 1 then fe_mul s x else s)

-- fePow
unfoldable pub fe_pow : Fe → Fe → Fe
unfolding pow_bits
fe_pow x e =
    pow_bits x e.x0 64 (pow_bits x e.x1 64 (pow_bits x e.x2 64 (pow_bits x e.x3 64 fe_one)))

-- feInvert and feChi
unfoldable pub fe_invert : Fe → Fe
unfolding fe_pow
fe_invert x = fe_pow x fe_inv_exp

unfoldable pub fe_chi : Fe → Fe
unfolding fe_pow
fe_chi x = fe_pow x fe_chi_exp

-- feSetBytes, of 32 bytes
unfoldable pub fe_set_bytes : Bytes → Fe
unfolding uint64_le fe_reduce
fe_set_bytes b =
    let t3 = uint64_le (drop 24 b) in
    fe_reduce (fe (uint64_le b) (uint64_le (drop 8 b)) (uint64_le (drop 16 b)) (t3 % 2 ^ 63))

-- feBytes
unfoldable pub fe_bytes : Fe → Bytes
unfolding put_uint64_le
fe_bytes x =
    put_uint64_le x.x0 ++ (put_uint64_le x.x1 ++ (put_uint64_le x.x2 ++ put_uint64_le x.x3))
