-- ===== src/Mote/Cpace/Field/Powers.antt =====
-- field.go: fePow raises to the power modulo 2^255-19.
use native.Mathlib.Nat.{pow-zero, pow-suc, mod-lt, mod-add-div, add-mul-mod_self_left, mod-eq_of_lt}
use mathlib.Core.Path.{subst}
use cmd.Prelude.{
  ℕ, zero, suc, ◌+◌, ◌*◌, ◌/◌, ◌%◌, ◌^◌, ◌<◌, ◌≡◌, sym, ap, ◌∙◌, inl, inr, false, arith, ◌==◌,
  ==_iff, Bool-cases, if_true, if_false,
}
use cmd.Mote.Cpace.Field.{word, Fe, fe_one, fe_mul, fe_square, pow_bits, fe_pow}
use cmd.Mote.Cpace.Field.Limbs.{val, IsFe}
use cmd.Mote.Cpace.Field.Sums.{prime, IsReduced}
use cmd.Mote.Cpace.Field.Products.{fe_mul_lem}

last_first : (x y a : ℕ) → x * y * a ≡ x * a * y
last_first x y a = grind arith

two_pairs : (x y a b : ℕ) → x * y * (a * b) ≡ x * a * (y * b)
two_pairs x y a b = grind arith

pow_add : (a m n : ℕ) → a ^ (m + n) ≡ a ^ m * a ^ n
pow_add a zero n =
    let none : 0 + n ≡ n = omega arith in
    let one : a ^ 0 * a ^ n ≡ a ^ n = ap (λ t. t * a ^ n) (pow-zero a) ∙ omega arith in
    ap (λ t. a ^ t) none ∙ sym one
pow_add a (suc m) n =
    let next : suc m + n ≡ suc (m + n) = omega arith in
    ap (λ t. a ^ t) next
    ∙ pow-suc a (m + n)
    ∙ ap (λ t. t * a) (pow_add a m n)
    ∙ last_first (a ^ m) (a ^ n) a
    ∙ ap (λ t. t * a ^ n) (sym (pow-suc a m))

mul_pow : (a b n : ℕ) → (a * b) ^ n ≡ a ^ n * b ^ n
mul_pow a b zero = grind (arith, pow-zero)
mul_pow a b (suc n) =
    pow-suc (a * b) n
    ∙ ap (λ t. t * (a * b)) (mul_pow a b n)
    ∙ two_pairs (a ^ n) (b ^ n) a b
    ∙ ap (λ t. t * (b ^ n * b)) (sym (pow-suc a n))
    ∙ ap (λ t. a ^ suc n * t) (sym (pow-suc b n))

distribute : (r q b : ℕ) → (r + prime * q) * b ≡ r * b + prime * (q * b)
distribute r q b = grind arith

-- Remainders may be taken before a product and before a power.
mod_mul : (a b : ℕ) → (a % prime) * b % prime ≡ a * b % prime
mod_mul a b =
    let parts : a ≡ a % prime + prime * (a / prime) = omega arith in
    let whole : a * b ≡ (a % prime) * b + prime * (a / prime * b) =
      ap (λ t. t * b) parts ∙ distribute (a % prime) (a / prime) b in
    omega (arith, whole)

swap : (a b : ℕ) → a * b ≡ b * a
swap a b = grind arith

mod_mul_right : (a b : ℕ) → a * (b % prime) % prime ≡ a * b % prime
mod_mul_right a b =
    ap (λ t. t % prime) (swap a (b % prime)) ∙ mod_mul b a ∙ ap (λ t. t % prime) (swap b a)

mod_pow : (a n : ℕ) → (a % prime) ^ n % prime ≡ a ^ n % prime
mod_pow a zero = ap (λ t. t % prime) (pow-zero (a % prime) ∙ sym (pow-zero a))
mod_pow a (suc n) =
    ap (λ t. t % prime) (pow-suc (a % prime) n)
    ∙ mod_mul_right ((a % prime) ^ n) a
    ∙ sym (mod_mul ((a % prime) ^ n) a)
    ∙ ap (λ t. t * a % prime) (mod_pow a n)
    ∙ mod_mul (a ^ n) a
    ∙ ap (λ t. t % prime) (sym (pow-suc a n))

pow_two_positive : (j : ℕ) → 0 < 2 ^ j
pow_two_positive zero = omega arith
pow_two_positive (suc j) = omega (arith, pow_two_positive j)

regroup : (p h bit r : ℕ) → r + p * (2 * h + bit) ≡ bit * p + r + 2 * p * h
regroup p h bit r = grind arith

regroup_right : (a b c : ℕ) → a * b * c ≡ a * (b * c)
regroup_right a b c = grind arith

below_double : (bit p r : ℕ) → bit < 2 → r < p → bit * p + r < 2 * p
below_double zero p r hb hr = omega arith
below_double (suc zero) p r hb hr = omega arith
below_double (suc (suc bit)) p r hb hr = absurd (omega arith)

-- The bits below j of an exponent, and the next one.
next_bit : (e j : ℕ) → e % 2 ^ suc j ≡ (e / 2 ^ j % 2) * 2 ^ j + e % 2 ^ j
next_bit e j =
    let p = 2 ^ j in
    let bit = e / p % 2 in
    let h = e / p / 2 in
    let half : e / p ≡ 2 * h + bit = omega arith in
    let double : 2 ^ suc j ≡ 2 * p = omega arith in
    let whole : e ≡ bit * p + e % p + 2 * p * h =
      sym (mod-add-div e p) ∙ ap (λ t. e % p + p * t) half ∙ regroup p h bit (e % p) in
    let small = below_double bit p (e % p) (omega arith) (mod-lt e (pow_two_positive j)) in
    ap (λ t. e % t) double
    ∙ ap (λ t. t % (2 * p)) whole
    ∙ add-mul-mod_self_left (bit * p + e % p) (2 * p) h
    ∙ mod-eq_of_lt small

square_pow : (r p : ℕ) → (r * r) ^ p ≡ r ^ (2 * p)
square_pow r p =
    let twice : p + p ≡ 2 * p = omega arith in
    mul_pow r r p ∙ sym (pow_add r p p) ∙ ap (λ t. r ^ t) twice

reduce_base : (a n b : ℕ) → (a % prime) ^ n * b % prime ≡ a ^ n * b % prime
reduce_base a n b =
    sym (mod_mul ((a % prime) ^ n) b) ∙ ap (λ t. t * b % prime) (mod_pow a n) ∙ mod_mul (a ^ n) b

-- One round of fePow on the numbers: r is squared, and multiplied by x if the bit is set.
round_one : (r x p m : ℕ) → (r * r * x) ^ p * x ^ m ≡ r ^ (2 * p) * x ^ (1 * p + m)
round_one r x p m =
    let once : p + m ≡ 1 * p + m = omega arith in
    ap (λ t. t * x ^ m) (mul_pow (r * r) x p ∙ ap (λ t. t * x ^ p) (square_pow r p))
    ∙ regroup_right (r ^ (2 * p)) (x ^ p) (x ^ m)
    ∙ ap (λ t. r ^ (2 * p) * t) (sym (pow_add x p m) ∙ ap (λ t. x ^ t) once)

round_zero : (r x p m : ℕ) → (r * r) ^ p * x ^ m ≡ r ^ (2 * p) * x ^ (0 * p + m)
round_zero r x p m =
    let none : m ≡ 0 * p + m = omega arith in
    ap (λ t. t * x ^ m) (square_pow r p) ∙ ap (λ t. r ^ (2 * p) * x ^ t) none

-- What a round leads to: `low` are the bits below the one that is used, `b`.
rounds :
    (r x e j b : ℕ)
    → e / 2 ^ j % 2 ≡ b
    → r ^ (2 * 2 ^ j) * x ^ (b * 2 ^ j + e % 2 ^ j) ≡ r ^ (2 ^ suc j) * x ^ (e % 2 ^ suc j)
rounds r x e j b bit =
    let double : 2 * 2 ^ j ≡ 2 ^ suc j = omega arith in
    ap (λ t. r ^ t * x ^ (b * 2 ^ j + e % 2 ^ j)) double
    ∙ ap (λ t. r ^ (2 ^ suc j) * x ^ t)
        (ap (λ t. t * 2 ^ j + e % 2 ^ j) (sym bit) ∙ sym (next_bit e j))

no_rounds : (r x e : ℕ) → r < prime → r ≡ r ^ (2 ^ 0) * x ^ (e % 2 ^ 0) % prime
no_rounds r x e h =
    let none : e % 2 ^ 0 ≡ 0 = omega arith in
    let power : x ^ (e % 2 ^ 0) ≡ 1 = ap (λ t. x ^ t) none ∙ pow-zero x in
    let one : r ^ (2 ^ 0) ≡ r = pow-suc r 0 ∙ ap (λ t. t * r) (pow-zero r) ∙ omega arith in
    let both : r ^ (2 ^ 0) * x ^ (e % 2 ^ 0) ≡ r * 1 =
      ap (λ t. t * x ^ (e % 2 ^ 0)) one ∙ ap (λ t. r * t) power in
    sym (ap (λ t. t % prime) both ∙ omega arith)

bit_clear : (n : ℕ) → (n % 2 == 1) ≡ false → n % 2 ≡ 0
bit_clear n h = ground arith

-- z is r after the rounds for the j lowest bits of e.
abbrev IsRaised : Fe → Fe → Fe → ℕ → ℕ → Type 0
IsRaised z r x e j = IsReduced z × (val z ≡ val r ^ (2 ^ j) * val x ^ (e % 2 ^ j) % prime)

pow_bits-IsRaised :
    (x : Fe) (e j : ℕ) (r : Fe) → IsFe x → IsReduced r → IsRaised (pow_bits x e j r) r x e j
unfolding pow_bits fe_square
pow_bits-IsRaised x e zero r hx hr = (hr, no_rounds (val r) (val x) e hr.1)
pow_bits-IsRaised x e (suc j) r hx hr =
    let s = fe_mul r r in
    let (s_reduced, s_val) = fe_mul_lem r r hr.0 hr.0 in
    let m = e % 2 ^ j in
    elim (Bool-cases (e / 2 ^ j % 2 == 1)) [
      | inl set ↦
          let bit : e / 2 ^ j % 2 ≡ 1 = (==_iff _ 1).0 set in
          let (t_reduced, t_val) = fe_mul_lem s x s_reduced.0 hx in
          let whole : val (fe_mul s x) ≡ val r * val r * val x % prime =
            t_val ∙ ap (λ t. t * val x % prime) s_val ∙ mod_mul (val r * val r) (val x) in
          let (reduced, eq) = pow_bits-IsRaised x e j (fe_mul s x) hx t_reduced in
          let next : pow_bits x e (suc j) r ≡ pow_bits x e j (fe_mul s x) =
            ap (pow_bits x e j) (if_true _ _ set) in
          subst (λ z. IsRaised z r x e (suc j)) (sym next)
            (
              reduced,
              eq
                  ∙ ap (λ t. t ^ (2 ^ j) * val x ^ m % prime) whole
                  ∙ reduce_base (val r * val r * val x) (2 ^ j) (val x ^ m)
                  ∙ ap (λ t. t % prime)
                      (round_one (val r) (val x) (2 ^ j) m ∙ rounds (val r) (val x) e j 1 bit),
            )
      | inr clear ↦
          let bit = bit_clear (e / 2 ^ j) clear in
          let (reduced, eq) = pow_bits-IsRaised x e j s hx s_reduced in
          let next : pow_bits x e (suc j) r ≡ pow_bits x e j s =
            ap (pow_bits x e j) (if_false _ _ clear) in
          subst (λ z. IsRaised z r x e (suc j)) (sym next)
            (
              reduced,
              eq
                  ∙ ap (λ t. t ^ (2 ^ j) * val x ^ m % prime) s_val
                  ∙ reduce_base (val r * val r) (2 ^ j) (val x ^ m)
                  ∙ ap (λ t. t % prime)
                      (round_zero (val r) (val x) (2 ^ j) m ∙ rounds (val r) (val x) e j 0 bit),
            )
    ]

pow_pow : (x a n : ℕ) → (x ^ a) ^ n ≡ x ^ (a * n)
pow_pow x a zero =
    let none : 0 ≡ a * 0 = grind arith in pow-zero (x ^ a) ∙ sym (pow-zero x) ∙ ap (λ t. x ^ t) none
pow_pow x a (suc n) =
    let next : a * n + a ≡ a * suc n = grind arith in
    pow-suc (x ^ a) n
    ∙ ap (λ t. t * x ^ a) (pow_pow x a n)
    ∙ sym (pow_add x (a * n) a)
    ∙ ap (λ t. x ^ t) next

-- One more limb of the exponent, below those that give h.
next_limb :
    (z r x h e w : ℕ)
    → r ≡ x ^ h % prime
    → z ≡ r ^ w * x ^ (e % w) % prime
    → e < w
    → z ≡ x ^ (h * w + e) % prime
next_limb z r x h e w hr hz small =
    hz
    ∙ ap (λ t. t ^ w * x ^ (e % w) % prime) hr
    ∙ reduce_base (x ^ h) w (x ^ (e % w))
    ∙ ap (λ t. t * x ^ (e % w) % prime) (pow_pow x h w)
    ∙ ap (λ t. t % prime)
        (sym (pow_add x (h * w) (e % w)) ∙ ap (λ t. x ^ (h * w + t)) (mod-eq_of_lt small))

fe_one-IsReduced : IsReduced fe_one
fe_one-IsReduced = ((omega arith, omega arith, omega arith, omega arith), omega arith)

-- An element is raised to the exponent modulo p.
pub fe_pow_lem :
    (x e : Fe)
    → IsFe x
    → IsFe e
    → IsReduced (fe_pow x e) × (val (fe_pow x e) ≡ val x ^ val e % prime)
unfolding fe_pow
fe_pow_lem x e hx (e0, e1, e2, e3) =
    let v = val x in
    let start : val fe_one ≡ v ^ 0 % prime = ap (λ t. t % prime) (sym (pow-zero v)) in
    let r3 = pow_bits x e.x3 64 fe_one in
    let (h3, v3) = pow_bits-IsRaised x e.x3 64 fe_one hx fe_one-IsReduced in
    let n3 = next_limb (val r3) (val fe_one) v 0 e.x3 word start v3 e3 in
    let r2 = pow_bits x e.x2 64 r3 in
    let (h2, v2) = pow_bits-IsRaised x e.x2 64 r3 hx h3 in
    let n2 = next_limb (val r2) (val r3) v (0 * word + e.x3) e.x2 word n3 v2 e2 in
    let r1 = pow_bits x e.x1 64 r2 in
    let (h1, v1) = pow_bits-IsRaised x e.x1 64 r2 hx h2 in
    let n1 = next_limb (val r1) (val r2) v ((0 * word + e.x3) * word + e.x2) e.x1 word n2 v1 e1 in
    let r0 = pow_bits x e.x0 64 r1 in
    let (h0, v0) = pow_bits-IsRaised x e.x0 64 r1 hx h1 in
    let n0 =
      next_limb (val r0) (val r1) v (((0 * word + e.x3) * word + e.x2) * word + e.x1) e.x0 word n1
        v0 e0 in
    let exponent : (((0 * word + e.x3) * word + e.x2) * word + e.x1) * word + e.x0 ≡ val e =
      omega arith in
    (h0, n0 ∙ ap (λ t. v ^ t % prime) exponent)
