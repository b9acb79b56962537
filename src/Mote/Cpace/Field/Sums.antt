-- ===== src/Mote/Cpace/Field/Sums.antt =====
-- field.go: feReduce, feAdd and feSub compute modulo 2^255-19.
use Prim.Native.Nat.{bit_and}
use cmd.Prelude.{
  ℕ, zero, suc, ◌+◌, ◌-◌, ◌*◌, ◌%◌, ◌^◌, ◌≤◌, ◌<◌, ◌≡◌, refl, inl, inr, arith, ◌==◌, ==_iff,
  Bool-cases,
}
use cmd.Mote.Cpace.Field.{Fe, fe, fe_p, mask, add_limbs, sub_limbs, fe_reduce, fe_add, fe_sub}
use cmd.Mote.Cpace.Field.Limbs.{val, IsFe, add_limbs_lem, sub_limbs_lem, choose_lem}

abbrev pub prime : ℕ
prime = 2 ^ 255 - 19

-- An element of the field as the code keeps it.
abbrev pub IsReduced : Fe → Type 0
IsReduced x = IsFe x × (val x < prime)

fe_p-IsFe : IsFe fe_p
fe_p-IsFe = (omega arith, omega arith, omega arith, omega arith)

-- A number below 2p
pub fe_reduce_lem :
    (x : Fe)
    → IsFe x
    → val x < 2 * prime
    → IsReduced (fe_reduce x) × (val (fe_reduce x) ≡ val x % prime)
unfolding fe_reduce
fe_reduce_lem x (h0, h1, h2, h3) small =
    let t = (sub_limbs x fe_p).0 in
    let b = (sub_limbs x fe_p).1 in
    let (e, hb, (t0, t1, t2, t3)) = sub_limbs_lem x fe_p (h0, h1, h2, h3) fe_p-IsFe in
    let c0 = choose_lem b t.x0 x.x0 t0 h0 hb in
    let c1 = choose_lem b t.x1 x.x1 t1 h1 hb in
    let c2 = choose_lem b t.x2 x.x2 t2 h2 hb in
    let c3 = choose_lem b t.x3 x.x3 t3 h3 hb in
    elim (Bool-cases (b == 0)) [
      | inl none ↦
          let z : b ≡ 0 = (==_iff b 0).0 none in
          rw (c0, c1, c2, c3, none) (((t0, t1, t2, t3), omega (arith, e, z)), omega (arith, e, z))
      | inr one ↦
          let z : b ≡ 1 = ground arith in
          rw (c0, c1, c2, c3, one)
            (
              ((h0, h1, h2, h3), omega (arith, e, z, t0, t1, t2, t3)),
              omega (arith, e, z, t0, t1, t2, t3),
            )
    ]

pub fe_add_lem :
    (x y : Fe)
    → IsReduced x
    → IsReduced y
    → IsReduced (fe_add x y) × (val (fe_add x y) ≡ (val x + val y) % prime)
unfolding fe_add
fe_add_lem x y (hx, sx) (hy, sy) =
    let t = (add_limbs x y).0 in
    let (e, (h0, h1, h2, h3)) = add_limbs_lem x y in
    let c : (add_limbs x y).1 ≡ 0 = omega (arith, e, sx, sy) in
    let same : val t ≡ val x + val y = omega (arith, e, c) in
    let (reduced, eq) = fe_reduce_lem t (h0, h1, h2, h3) (omega (arith, same, sx, sy)) in
    (reduced, omega (arith, eq, same))

-- p under the mask of a borrow
abbrev masked : ℕ → Fe
masked b =
    fe (bit_and fe_p.x0 (mask b)) (bit_and fe_p.x1 (mask b)) (bit_and fe_p.x2 (mask b))
      (bit_and fe_p.x3 (mask b))

masked_lem : (b : ℕ) → b ≤ 1 → val (masked b) ≡ b * prime
unfolding mask
masked_lem zero h = refl
masked_lem (suc zero) h = refl
masked_lem (suc (suc b)) h = absurd (omega arith)

-- With the numbers: t is the difference with its borrow b, and z what is left when p is added back.
added_back :
    (x y t z b c : ℕ)
    → t + y ≡ x + 2 ^ 256 * b
    → b ≤ 1
    → z + 2 ^ 256 * c ≡ t + b * prime
    → t < 2 ^ 256
    → z < 2 ^ 256
    → x < prime
    → y < prime
    → (z < prime) × (z ≡ (x + prime - y) % prime)
added_back x y t z zero c e hb e' ht hz hx hy = (omega arith, omega arith)
added_back x y t z (suc zero) c e hb e' ht hz hx hy = (omega arith, omega arith)
added_back x y t z (suc (suc b)) c e hb e' ht hz hx hy = absurd (omega arith)

pub val_bound : (x : Fe) → IsFe x → val x < 2 ^ 256
val_bound x (h0, h1, h2, h3) = omega arith

pub fe_sub_lem :
    (x y : Fe)
    → IsReduced x
    → IsReduced y
    → IsReduced (fe_sub x y) × (val (fe_sub x y) ≡ (val x + prime - val y) % prime)
unfolding fe_sub
fe_sub_lem x y (hx, sx) (hy, sy) =
    let t = (sub_limbs x y).0 in
    let b = (sub_limbs x y).1 in
    let (e, hb, ht) = sub_limbs_lem x y hx hy in
    let (e', h') = add_limbs_lem t (masked b) in
    let c = (add_limbs t (masked b)).1 in
    let z = (add_limbs t (masked b)).0 in
    let whole : val z + 2 ^ 256 * c ≡ val t + b * prime = omega (arith, e', masked_lem b hb) in
    let (small, eq) =
      added_back (val x) (val y) (val t) (val z) b c e hb whole (val_bound t ht) (val_bound z h') sx
        sy in
    ((h', small), eq)
