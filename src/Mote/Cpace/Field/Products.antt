-- ===== src/Mote/Cpace/Field/Products.antt =====
-- field.go: feMul multiplies modulo 2^255-19.
use cmd.Prelude.{ℕ, ◌+◌, ◌-◌, ◌*◌, ◌/◌, ◌%◌, ◌^◌, ◌≤◌, ◌<◌, ◌≡◌, sym, ◌∙◌, arith}
use cmd.Mote.Cpace.Field.{
  word, Fe, fe, fe_zero, add64, mul64, add_limbs, mul_step, mul_row, mul_rows, fold_step,
  fold_upper, add_low, fold_down, fe_mul,
}
use cmd.Mote.Cpace.Field.Limbs.{val, IsFe, add_limbs_lem}
use cmd.Mote.Cpace.Field.Sums.{prime, IsReduced, val_bound, fe_reduce_lem}

product_bound : (x y : ℕ) → x < word → y < word → x * y ≤ (word - 1) * (word - 1)
product_bound x y hx hy = grind arith

-- No carry is lost.
mul_step_lem :
    (x y r carry : ℕ)
    → x < word
    → y < word
    → r < word
    → carry < word
    → ((mul_step x y r carry).0 + word * (mul_step x y r carry).1 ≡ x * y + r + carry)
      × ((mul_step x y r carry).0 < word)
      × ((mul_step x y r carry).1 < word)
unfolding mul_step mul64 add64
mul_step_lem x y r carry hx hy hr hc =
    let b = product_bound x y hx hy in (omega (arith, b), omega arith, omega arith)

distribute :
    (x a b c d : ℕ)
    → x * (a + b * 2 ^ 64 + c * 2 ^ 128 + d * 2 ^ 192)
      ≡ x * a + x * b * 2 ^ 64 + x * c * 2 ^ 128 + x * d * 2 ^ 192
distribute x a b c d = grind arith

mul_row_lem :
    (x : ℕ) (y r : Fe)
    → x < word
    → IsFe y
    → IsFe r
    → (val (mul_row x y r).0 + 2 ^ 256 * (mul_row x y r).1 ≡ x * val y + val r)
      × IsFe (mul_row x y r).0
      × ((mul_row x y r).1 < word)
unfolding mul_row
mul_row_lem x y r hx (y0, y1, y2, y3) (r0, r1, r2, r3) =
    let (e0, l0, k0) = mul_step_lem x y.x0 r.x0 0 hx y0 r0 (omega arith) in
    let c0 = (mul_step x y.x0 r.x0 0).1 in
    let (e1, l1, k1) = mul_step_lem x y.x1 r.x1 c0 hx y1 r1 k0 in
    let c1 = (mul_step x y.x1 r.x1 c0).1 in
    let (e2, l2, k2) = mul_step_lem x y.x2 r.x2 c1 hx y2 r2 k1 in
    let c2 = (mul_step x y.x2 r.x2 c1).1 in
    let (e3, l3, k3) = mul_step_lem x y.x3 r.x3 c2 hx y3 r3 k2 in
    (omega (arith, e0, e1, e2, e3, distribute x y.x0 y.x1 y.x2 y.x3), (l0, l1, l2, l3), k3)

distribute_left :
    (a b c d y : ℕ)
    → (a + b * 2 ^ 64 + c * 2 ^ 128 + d * 2 ^ 192) * y
      ≡ a * y + b * y * 2 ^ 64 + c * y * 2 ^ 128 + d * y * 2 ^ 192
distribute_left a b c d y = grind arith

-- The sum of four rows, each of which starts one limb above the one before.
stacked :
    (r0 r1 r2 r3 : Fe) (k0 k1 k2 k3 p0 p1 p2 p3 : ℕ)
    → val r0 + 2 ^ 256 * k0 ≡ p0 + val fe_zero
    → val r1 + 2 ^ 256 * k1 ≡ p1 + val (fe r0.x1 r0.x2 r0.x3 k0)
    → val r2 + 2 ^ 256 * k2 ≡ p2 + val (fe r1.x1 r1.x2 r1.x3 k1)
    → val r3 + 2 ^ 256 * k3 ≡ p3 + val (fe r2.x1 r2.x2 r2.x3 k2)
    → val (fe r0.x0 r1.x0 r2.x0 r3.x0) + 2 ^ 256 * val (fe r3.x1 r3.x2 r3.x3 k3)
      ≡ p0 + p1 * 2 ^ 64 + p2 * 2 ^ 128 + p3 * 2 ^ 192
stacked r0 r1 r2 r3 k0 k1 k2 k3 p0 p1 p2 p3 e0 e1 e2 e3 = omega arith

-- The eight limbs of the product
mul_rows_lem :
    (x y : Fe)
    → IsFe x
    → IsFe y
    → (val (mul_rows x y).0 + 2 ^ 256 * val (mul_rows x y).1 ≡ val x * val y)
      × IsFe (mul_rows x y).0
      × IsFe (mul_rows x y).1
unfolding mul_rows
mul_rows_lem x y (x0, x1, x2, x3) hy =
    let (r0, k0) = mul_row x.x0 y fe_zero in
    let (e0, (l00, l01, l02, l03), h0) =
      mul_row_lem x.x0 y fe_zero x0 hy (omega arith, omega arith, omega arith, omega arith) in
    let (r1, k1) = mul_row x.x1 y (fe r0.x1 r0.x2 r0.x3 k0) in
    let (e1, (l10, l11, l12, l13), h1) =
      mul_row_lem x.x1 y (fe r0.x1 r0.x2 r0.x3 k0) x1 hy (l01, l02, l03, h0) in
    let (r2, k2) = mul_row x.x2 y (fe r1.x1 r1.x2 r1.x3 k1) in
    let (e2, (l20, l21, l22, l23), h2) =
      mul_row_lem x.x2 y (fe r1.x1 r1.x2 r1.x3 k1) x2 hy (l11, l12, l13, h1) in
    let (e3, (l30, l31, l32, l33), h3) =
      mul_row_lem x.x3 y (fe r2.x1 r2.x2 r2.x3 k2) x3 hy (l21, l22, l23, h2) in
    (
      stacked r0 r1 r2 (mul_row x.x3 y (fe r2.x1 r2.x2 r2.x3 k2)).0 k0 k1 k2 _ _ _ _ _ e0 e1 e2 e3
          ∙ sym (distribute_left x.x0 x.x1 x.x2 x.x3 (val y)),
      (l00, l10, l20, l30),
      (l31, l32, l33, h3),
    )

fold_step_lem :
    (r carry : ℕ)
    → r < word
    → carry ≤ 38
    → ((fold_step r carry).0 + word * (fold_step r carry).1 ≡ 38 * r + carry)
      × ((fold_step r carry).0 < word)
      × ((fold_step r carry).1 ≤ 38)
unfolding fold_step mul64 add64
fold_step_lem r carry hr hc = (omega arith, omega arith, omega arith)

fold_upper_lem :
    (r : Fe)
    → IsFe r
    → (val (fold_upper r).0 + 2 ^ 256 * (fold_upper r).1 ≡ 38 * val r)
      × IsFe (fold_upper r).0
      × ((fold_upper r).1 ≤ 38)
unfolding fold_upper
fold_upper_lem r (r0, r1, r2, r3) =
    let (e0, l0, k0) = fold_step_lem r.x0 0 r0 (omega arith) in
    let c0 = (fold_step r.x0 0).1 in
    let (e1, l1, k1) = fold_step_lem r.x1 c0 r1 k0 in
    let c1 = (fold_step r.x1 c0).1 in
    let (e2, l2, k2) = fold_step_lem r.x2 c1 r2 k1 in
    let c2 = (fold_step r.x2 c1).1 in
    let (e3, l3, k3) = fold_step_lem r.x3 c2 r3 k2 in
    (omega (arith, e0, e1, e2, e3), (l0, l1, l2, l3), k3)

add_low_lem :
    (t : Fe) (n : ℕ)
    → (val (add_low t n).0 + 2 ^ 256 * (add_low t n).1 ≡ val t + n) × IsFe (add_low t n).0
unfolding add_low
add_low_lem t n = let (e, h) = add_limbs_lem t (fe n 0 0 0) in (omega (arith, e), h)

-- The numbers of fold_down: each equation is one addition, and b the bit 255.
folded :
    (low high h h4 t c t' c' t'' c'' b rest u d : ℕ)
    → h + 2 ^ 256 * h4 ≡ 38 * high
    → h4 ≤ 38
    → t + 2 ^ 256 * c ≡ low + h
    → t' + 2 ^ 256 * c' ≡ t + (h4 + c) % word * 38 % word
    → t'' + 2 ^ 256 * c'' ≡ t' + c' * 38
    → rest + 2 ^ 255 * b ≡ t''
    → rest < 2 ^ 255
    → u + 2 ^ 256 * d ≡ rest + b * 19
    → low < 2 ^ 256
    → h < 2 ^ 256
    → t < 2 ^ 256
    → t' < 2 ^ 256
    → t'' < 2 ^ 256
    → (u < 2 * prime) × (u % prime ≡ (low + 38 * high) % prime)
folded low high h h4 t c t' c' t'' c'' b rest u d e1 hh e2 e3 e4 e5 hr e6 hl hh' ht ht' ht'' =
    let one : c ≤ 1 = omega arith in
    let top : (h4 + c) % word * 38 % word ≡ (h4 + c) * 38 = omega arith in
    let one' : c' ≤ 1 = omega arith in
    let none : c'' ≡ 0 = omega arith in
    let bit : b ≤ 1 = omega arith in
    let none' : d ≡ 0 = omega arith in
    let total : low + 38 * high ≡ u + prime * (b + 2 * c' + 2 * (h4 + c)) = omega arith in
    (omega arith, omega (arith, total))

-- Bit 255 apart from the rest.
clear_top :
    (t : Fe)
    → IsFe t
    → (val (fe t.x0 t.x1 t.x2 (t.x3 % 2 ^ 63)) + 2 ^ 255 * (t.x3 / 2 ^ 63) ≡ val t)
      × (val (fe t.x0 t.x1 t.x2 (t.x3 % 2 ^ 63)) < 2 ^ 255)
clear_top t (t0, t1, t2, t3) = (omega arith, omega arith)

fold_down_lem :
    (low high : Fe)
    → IsFe low
    → IsFe high
    → IsReduced (fold_down low high)
      × (val (fold_down low high) ≡ (val low + 38 * val high) % prime)
unfolding fold_down
fold_down_lem low high hl hh =
    let (e1, h1, h4) = fold_upper_lem high hh in
    let h = (fold_upper high).0 in
    let (e2, h2) = add_limbs_lem low h in
    let t = (add_limbs low h).0 in
    let top = ((fold_upper high).1 + (add_limbs low h).1) % word in
    let (e3, h3) = add_low_lem t (top * 38 % word) in
    let t' = (add_low t (top * 38 % word)).0 in
    let c' = (add_low t (top * 38 % word)).1 in
    let (e5, h5) = add_low_lem t' (c' * 38) in
    let t'' = (add_low t' (c' * 38)).0 in
    let (e6, h6) = clear_top t'' h5 in
    let rest = fe t''.x0 t''.x1 t''.x2 (t''.x3 % 2 ^ 63) in
    let b = t''.x3 / 2 ^ 63 in
    let (e7, h7) = add_low_lem rest (b * 19) in
    let u = (add_low rest (b * 19)).0 in
    let (small, eq) =
      folded (val low) (val high) (val h) (fold_upper high).1 (val t) (add_limbs low h).1 (val t')
        c' (val t'') (add_low t' (c' * 38)).1 b (val rest) (val u) (add_low rest (b * 19)).1 e1 h4
        e2 e3 e5 e6 h6 e7 (val_bound low hl) (val_bound h h1) (val_bound t h2) (val_bound t' h3)
        (val_bound t'' h5) in
    let (reduced, same) = fe_reduce_lem u h7 small in (reduced, same ∙ eq)

split_mod : (l h n : ℕ) → l + 2 ^ 256 * h ≡ n → (l + 38 * h) % prime ≡ n % prime
split_mod l h n e = omega arith

-- Elements are multiplied modulo p, and the result is an element.
pub fe_mul_lem :
    (x y : Fe)
    → IsFe x
    → IsFe y
    → IsReduced (fe_mul x y) × (val (fe_mul x y) ≡ val x * val y % prime)
unfolding fe_mul
fe_mul_lem x y hx hy =
    let (e, hl, hh) = mul_rows_lem x y hx hy in
    let low = (mul_rows x y).0 in
    let high = (mul_rows x y).1 in
    let (reduced, eq) = fold_down_lem low high hl hh in
    (reduced, eq ∙ split_mod (val low) (val high) _ e)
