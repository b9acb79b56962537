-- ===== src/Mote/Cpace/Field/Limbs.antt =====
-- field.go: what the chains of bits.Add64 and bits.Sub64 compute, and the choice by a mask.
use cmd.Prelude.{
  ℕ, ◌+◌, ◌*◌, ◌^◌, ◌≤◌, ◌<◌, ◌≡◌, ◌==◌, zero, suc, inl, inr, ap, ◌∙◌, arith, ltb, ltb→lt,
  Bool-cases, if◌then◌else◌,
}
use Prim.Native.Nat.{bit_xor}
use cmd.Prelude.Bits.{nothing_and, bit_xor_zero, bit_xor_cancels, bit_xor_bound, ones-bit_and}
use cmd.Mote.Cpace.Field.{word, Fe, add64, sub64, mask, choose, add_limbs, sub_limbs}

-- The number that four limbs stand for.
abbrev pub val : Fe → ℕ
val x = x.x0 + x.x1 * 2 ^ 64 + x.x2 * 2 ^ 128 + x.x3 * 2 ^ 192

-- Every limb is a uint64.
abbrev pub IsFe : Fe → Type 0
IsFe x = (x.x0 < word) × (x.x1 < word) × (x.x2 < word) × (x.x3 < word)

pub add64_lem :
    (x y c : ℕ) → ((add64 x y c).0 + word * (add64 x y c).1 ≡ x + y + c) × ((add64 x y c).0 < word)
unfolding add64
add64_lem x y c = (omega arith, omega arith)

sub64_lem :
    (x y b : ℕ)
    → x < word
    → y < word
    → b ≤ 1
    → ((sub64 x y b).0 + y + b ≡ x + word * (sub64 x y b).1)
      × ((sub64 x y b).0 < word)
      × ((sub64 x y b).1 ≤ 1)
unfolding sub64
sub64_lem x y b hx hy hb = elim (Bool-cases (ltb x (y + b))) [
  | inl less ↦ let l = ltb→lt x (y + b) less in rw less (omega arith, omega arith, omega arith)
  | inr more ↦ let l : y + b ≤ x = ground arith in rw more (omega arith, omega arith, omega arith)
]

pub add_limbs_lem :
    (x y : Fe)
    → (val (add_limbs x y).0 + 2 ^ 256 * (add_limbs x y).1 ≡ val x + val y) × IsFe (add_limbs x y).0
unfolding add_limbs
add_limbs_lem x y =
    let (e0, h0) = add64_lem x.x0 y.x0 0 in
    let c0 = (add64 x.x0 y.x0 0).1 in
    let (e1, h1) = add64_lem x.x1 y.x1 c0 in
    let c1 = (add64 x.x1 y.x1 c0).1 in
    let (e2, h2) = add64_lem x.x2 y.x2 c1 in
    let c2 = (add64 x.x2 y.x2 c1).1 in
    let (e3, h3) = add64_lem x.x3 y.x3 c2 in (omega (arith, e0, e1, e2, e3), (h0, h1, h2, h3))

pub sub_limbs_lem :
    (x y : Fe)
    → IsFe x
    → IsFe y
    → (val (sub_limbs x y).0 + val y ≡ val x + 2 ^ 256 * (sub_limbs x y).1)
      × ((sub_limbs x y).1 ≤ 1)
      × IsFe (sub_limbs x y).0
unfolding sub_limbs
sub_limbs_lem x y (hx0, hx1, hx2, hx3) (hy0, hy1, hy2, hy3) =
    let (e0, h0, k0) = sub64_lem x.x0 y.x0 0 hx0 hy0 (omega arith) in
    let b0 = (sub64 x.x0 y.x0 0).1 in
    let (e1, h1, k1) = sub64_lem x.x1 y.x1 b0 hx1 hy1 k0 in
    let b1 = (sub64 x.x1 y.x1 b0).1 in
    let (e2, h2, k2) = sub64_lem x.x2 y.x2 b1 hx2 hy2 k1 in
    let b2 = (sub64 x.x2 y.x2 b1).1 in
    let (e3, h3, k3) = sub64_lem x.x3 y.x3 b2 hx3 hy3 k2 in
    (omega (arith, e0, e1, e2, e3), k3, (h0, h1, h2, h3))

-- The mask of a borrow chooses x, that of none t.
pub choose_lem :
    (b t x : ℕ) → t < word → x < word → b ≤ 1 → choose (mask b) t x ≡ (if b == 0 then t else x)
unfolding choose mask
choose_lem zero t x ht hx hb = rw (nothing_and (bit_xor t x)) (bit_xor_zero t)
choose_lem (suc zero) t x ht hx hb =
    ap (bit_xor t) (ones-bit_and 64 (bit_xor t x) (bit_xor_bound 64 t x ht hx))
    ∙ bit_xor_cancels t x
choose_lem (suc (suc b)) t x ht hx hb = absurd (omega arith)
