-- ===== src/Mote/Cpace/Elligator/Formula.antt =====
-- elligator.go: elligator2 computes the map that its comment states.
use cmd.Prelude.{ℕ, ◌+◌, ◌-◌, ◌*◌, ◌/◌, ◌%◌, ◌^◌, ◌<◌, ◌≡◌, refl, ap, ◌∙◌, arith, IsBytes, length}
use cmd.Mote.Cpace.Field.{
  Fe, fe_zero, fe_one, fe_inv_exp, fe_chi_exp, fe_add, fe_sub, fe_mul, fe_square, fe_pow, fe_invert,
  fe_chi,
}
use cmd.Mote.Cpace.Field.Limbs.{val, IsFe}
use cmd.Mote.Cpace.Field.Sums.{prime, IsReduced, fe_add_lem, fe_sub_lem}
use cmd.Mote.Cpace.Field.Products.{fe_mul_lem}
use cmd.Mote.Cpace.Field.Powers.{fe_pow_lem}
use cmd.Mote.Cpace.Field.Encoded.{little_endian, fe_bytes_lem}
use cmd.Mote.Cpace.Elligator.{fe_a, fe_a_half, fe_neg_a, map_v, curve_w, elligator2}

-- The field of 2^255-19 as numbers.
abbrev plus : ℕ → ℕ → ℕ
plus a b = (a + b) % prime

abbrev minus : ℕ → ℕ → ℕ
minus a b = (a + prime - b) % prime

abbrev times : ℕ → ℕ → ℕ
times a b = a * b % prime

power : ℕ → ℕ → ℕ
power a n = a ^ n % prime

-- The parameter A of the curve.
abbrev curve_a : ℕ
curve_a = 486662

-- v = -A / (1 + 2r²), where the inverse of x is x to the p-2
pub point_v : ℕ → ℕ
unfolding power
point_v r = times (minus 0 curve_a) (power (plus (times 2 (times r r)) 1) (prime - 2))

-- w = v³ + Av² + v
pub point_w : ℕ → ℕ
point_w v = times v (plus (plus (times v v) (times curve_a v)) 1)

-- u = εv - (1 - ε)A/2, where ε is w to the (p-1)/2
pub formula : ℕ → ℕ
unfolding point_v point_w power
formula r =
    let v = point_v r in
    let eps = power (point_w v) ((prime - 1) / 2) in
    minus (times eps v) (times (minus 1 eps) (curve_a / 2))

-- An element that stands for n.
abbrev Stands : Fe → ℕ → Type 0
Stands x n = IsReduced x × (val x ≡ n)

module _ {x y : Fe} {m n : ℕ} (h : Stands x m) (k : Stands y n) where
  add-Stands : Stands (fe_add x y) (plus m n)
  add-Stands =
      let (r, e) = fe_add_lem x y h.0 k.0 in
      (r, e ∙ ap (λ t. plus t (val y)) h.1 ∙ ap (λ t. plus m t) k.1)

  sub-Stands : Stands (fe_sub x y) (minus m n)
  sub-Stands =
      let (r, e) = fe_sub_lem x y h.0 k.0 in
      (r, e ∙ ap (λ t. minus t (val y)) h.1 ∙ ap (λ t. minus m t) k.1)

  mul-Stands : Stands (fe_mul x y) (times m n)
  mul-Stands =
      let (r, e) = fe_mul_lem x y h.0.0 k.0.0 in
      (r, e ∙ ap (λ t. times t (val y)) h.1 ∙ ap (λ t. times m t) k.1)

  pow-Stands : Stands (fe_pow x y) (power m n)
  unfolding power
  pow-Stands =
      let (r, e) = fe_pow_lem x y h.0.0 k.0.0 in
      (r, e ∙ ap (λ t. t ^ val y % prime) h.1 ∙ ap (λ t. m ^ t % prime) k.1)

constant : (x : Fe) → IsFe x → val x < prime → Stands x (val x)
constant x h small = ((h, small), refl)

becomes : {x : Fe} {m n : ℕ} → Stands x m → m ≡ n → Stands x n
becomes (h, e) same = (h, e ∙ same)

zero-Stands : Stands fe_zero 0
zero-Stands = constant fe_zero (omega arith, omega arith, omega arith, omega arith) (omega arith)

one-Stands : Stands fe_one 1
one-Stands = constant fe_one (omega arith, omega arith, omega arith, omega arith) (omega arith)

a-Stands : Stands fe_a curve_a
a-Stands = constant fe_a (omega arith, omega arith, omega arith, omega arith) (omega arith)

half-Stands : Stands fe_a_half (curve_a / 2)
half-Stands = constant fe_a_half (omega arith, omega arith, omega arith, omega arith) (omega arith)

inv_exp-Stands : Stands fe_inv_exp (prime - 2)
inv_exp-Stands =
    constant fe_inv_exp (omega arith, omega arith, omega arith, omega arith) (omega arith)

chi_exp-Stands : Stands fe_chi_exp ((prime - 1) / 2)
chi_exp-Stands =
    constant fe_chi_exp (omega arith, omega arith, omega arith, omega arith) (omega arith)

twice : (t : ℕ) → plus t t ≡ times 2 t
twice t = omega arith

swapped : (a b : ℕ) → times a b ≡ times b a
swapped a b = let e : a * b ≡ b * a = grind arith in ap (λ t. t % prime) e

map_v-Stands : (r : Fe) (n : ℕ) → Stands r n → Stands (map_v r) (point_v n)
unfolding map_v point_v fe_neg_a fe_square fe_invert
map_v-Stands r n h =
    let square = mul-Stands h h in
    let double = becomes (add-Stands square square) (twice (times n n)) in
    mul-Stands (sub-Stands zero-Stands a-Stands)
      (pow-Stands (add-Stands double one-Stands) inv_exp-Stands)

curve_w-Stands : (v : Fe) (n : ℕ) → Stands v n → Stands (curve_w v) (point_w n)
unfolding curve_w point_w fe_square
curve_w-Stands v n h =
    let sum = add-Stands (add-Stands (mul-Stands h h) (mul-Stands a-Stands h)) one-Stands in
    becomes (mul-Stands sum h) (swapped (plus (plus (times n n) (times curve_a n)) 1) n)

-- elligator2 writes the 32 bytes of the u that the formula gives.
pub elligator2_lem :
    (r : Fe)
    → IsReduced r
    → (length (elligator2 r) ≡ 32)
      × IsBytes (elligator2 r)
      × (little_endian (elligator2 r) ≡ formula (val r))
unfolding elligator2 formula fe_chi
elligator2_lem r hr =
    let v = map_v-Stands r (val r) (hr, refl) in
    let eps = pow-Stands (curve_w-Stands (map_v r) (point_v (val r)) v) chi_exp-Stands in
    let u = sub-Stands (mul-Stands eps v) (mul-Stands (sub-Stands one-Stands eps) half-Stands) in
    let (size, bytes, value) = fe_bytes_lem _ u.0.0 in (size, bytes, value ∙ u.1)
