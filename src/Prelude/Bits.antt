-- ===== src/Prelude/Bits.antt =====
-- Masks and exclusive or at variables.
use Prim.Native.Nat.{
  ℕ, zero, suc, ◌+◌, ◌-◌, ◌*◌, ◌/◌, ◌%◌, ◌^◌, ◌≤◌, ◌<◌, min, differ, digits, bit_and, bit_xor,
  bitwise, bit_and-bitwise, bit_xor-bitwise,
}
use mathlib.Core.Path.{◌≡◌, refl, ap, sym, ◌∙◌}
use native.Mathlib.Omega.{arith}

-- An operation that treats its lowest digits the same way when the first number has run out.
module _ (z : ℕ → ℕ) (f : ℕ → ℕ → ℕ) (runs_on : (b : ℕ) → z b ≡ z (b / 2) * 2 + f 0 (b % 2)) where
  run_out : (fuel b : ℕ) → digits z f fuel 0 b ≡ z b
  run_out zero b = refl
  run_out (suc fuel) b = refl

  -- One more than enough changes nothing, nor do k more.
  spare_one : (a fuel b : ℕ) → a ≤ fuel → digits z f (suc fuel) a b ≡ digits z f fuel a b
  spare_one zero fuel b enough = sym (run_out fuel b)
  spare_one (suc a) zero b enough = absurd (omega arith)
  spare_one (suc a) (suc fuel) b enough =
      let rest = spare_one (suc a / 2) fuel (b / 2) (omega arith) in
      ap (λ t. t * 2 + f (suc a % 2) (b % 2)) rest

  spare : (k a fuel b : ℕ) → a ≤ fuel → digits z f (k + fuel) a b ≡ digits z f fuel a b
  spare zero a fuel b enough = let e : 0 + fuel ≡ fuel = omega arith in ap (λ t. digits z f t a b) e
  spare (suc k) a fuel b enough =
      let e : suc k + fuel ≡ suc (k + fuel) = omega arith in
      ap (λ t. digits z f t a b) e
      ∙ spare_one a (k + fuel) b (omega arith)
      ∙ spare k a fuel b enough

  last_digit : (a b : ℕ) → bitwise z f a b ≡ bitwise z f (a / 2) (b / 2) * 2 + f (a % 2) (b % 2)
  last_digit zero b = runs_on b
  last_digit (suc a) b =
      let e : a ≡ (a - suc a / 2) + suc a / 2 = omega arith in
      ap (λ t. t * 2 + f (suc a % 2) (b % 2))
        (ap (λ t. digits z f t (suc a / 2) (b / 2)) e
          ∙ spare (a - suc a / 2) (suc a / 2) (suc a / 2) (b / 2) (omega arith))

pub nothing_xor : (b : ℕ) → bit_xor 0 b ≡ b
nothing_xor b = bit_xor-bitwise 0 b

pub nothing_and : (b : ℕ) → bit_and 0 b ≡ 0
nothing_and b = bit_and-bitwise 0 b

differ_bits : (a b : ℕ) → a < 2 → b < 2 → differ a b ≡ (a + b) % 2
differ_bits zero b ha hb = omega arith
differ_bits (suc zero) zero ha hb = refl
differ_bits (suc zero) (suc zero) ha hb = refl
differ_bits (suc zero) (suc (suc b)) ha hb = absurd (omega arith)
differ_bits (suc (suc a)) b ha hb = absurd (omega arith)

last_xor : (a b : ℕ) → bit_xor a b ≡ bit_xor (a / 2) (b / 2) * 2 + (a % 2 + b % 2) % 2
last_xor a b =
    bit_xor-bitwise a b
    ∙ last_digit (λ b. b) differ (λ b. omega arith) a b
    ∙ ap (λ t. t * 2 + differ (a % 2) (b % 2)) (sym (bit_xor-bitwise (a / 2) (b / 2)))
    ∙ ap (λ t. bit_xor (a / 2) (b / 2) * 2 + t)
        (differ_bits (a % 2) (b % 2) (omega arith) (omega arith))

last_and : (x y : ℕ) → bit_and x y ≡ bit_and (x / 2) (y / 2) * 2 + min (x % 2) (y % 2)
last_and x y =
    bit_and-bitwise x y
    ∙ last_digit (λ y. zero) min (λ b. omega arith) x y
    ∙ ap (λ t. t * 2 + min (x % 2) (y % 2)) (sym (bit_and-bitwise (x / 2) (y / 2)))

bit_xor_cancels_to : (n t x : ℕ) → t ≤ n → bit_xor t (bit_xor t x) ≡ x
bit_xor_cancels_to n zero x h = nothing_xor (bit_xor 0 x) ∙ nothing_xor x
bit_xor_cancels_to zero (suc t) x h = absurd (omega arith)
bit_xor_cancels_to (suc n) (suc t) x h =
    let y = bit_xor (suc t) x in
    let step : y ≡ bit_xor (suc t / 2) (x / 2) * 2 + (suc t % 2 + x % 2) % 2 = last_xor (suc t) x in
    let half : y / 2 ≡ bit_xor (suc t / 2) (x / 2) = omega (arith, step) in
    let low : y % 2 ≡ (suc t % 2 + x % 2) % 2 = omega (arith, step) in
    let rest : bit_xor (suc t / 2) (y / 2) ≡ x / 2 =
      ap (bit_xor (suc t / 2)) half ∙ bit_xor_cancels_to n (suc t / 2) (x / 2) (omega arith) in
    omega (arith, last_xor (suc t) y, rest, low)

-- t ^ (t ^ x) is x.
pub bit_xor_cancels : (t x : ℕ) → bit_xor t (bit_xor t x) ≡ x
bit_xor_cancels t x = bit_xor_cancels_to t t x (omega arith)

bit_xor_zero_to : (n t : ℕ) → t ≤ n → bit_xor t 0 ≡ t
bit_xor_zero_to n zero h = nothing_xor 0
bit_xor_zero_to zero (suc t) h = absurd (omega arith)
bit_xor_zero_to (suc n) (suc t) h =
    omega (arith, last_xor (suc t) 0, bit_xor_zero_to n (suc t / 2) (omega arith))

pub bit_xor_zero : (t : ℕ) → bit_xor t 0 ≡ t
bit_xor_zero t = bit_xor_zero_to t t (omega arith)

pub bit_xor_bound : (k a b : ℕ) → a < 2 ^ k → b < 2 ^ k → bit_xor a b < 2 ^ k
bit_xor_bound zero a b ha hb =
    let none : a ≡ 0 = omega arith in rw none (omega (arith, nothing_xor b))
bit_xor_bound (suc k) a b ha hb =
    omega (arith, last_xor a b, bit_xor_bound k (a / 2) (b / 2) (omega arith) (omega arith))

-- A mask of k ones keeps the numbers of k digits.
pub ones-bit_and : (k y : ℕ) → y < 2 ^ k → bit_and (2 ^ k - 1) y ≡ y
ones-bit_and zero y h = omega (arith, nothing_and y)
ones-bit_and (suc k) y h =
    let half : (2 ^ suc k - 1) / 2 ≡ 2 ^ k - 1 = omega arith in
    let rest : bit_and ((2 ^ suc k - 1) / 2) (y / 2) ≡ y / 2 =
      ap (λ t. bit_and t (y / 2)) half ∙ ones-bit_and k (y / 2) (omega arith) in
    omega (arith, last_and (2 ^ suc k - 1) y, rest)
