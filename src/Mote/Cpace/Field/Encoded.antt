-- ===== src/Mote/Cpace/Field/Encoded.antt =====
-- field.go: feSetBytes and feBytes, against numbers read from bytes.
use cmd.Prelude.{
  ℕ, zero, suc, ◌+◌, ◌*◌, ◌%◌, ◌^◌, ◌≤◌, ◌<◌, ◌≡◌, refl, sym, ap, ◌∙◌, [], ◌∷◌, ◌++◌, arith, Bytes,
  IsBytes, All-drop, All-append, length, length-drop, drop, drop_all,
}
use cmd.Prelude.Digits.{uint64_le, put_uint64_le}
use cmd.Mote.Cpace.Field.{word, Fe, fe, fe_set_bytes, fe_bytes}
use cmd.Mote.Cpace.Field.Limbs.{val, IsFe}
use cmd.Mote.Cpace.Field.Sums.{prime, IsReduced, fe_reduce_lem}

-- The number that bytes stand for, the lowest first.
pub little_endian : Bytes → ℕ
little_endian [] = 0
little_endian (b ∷ bs) = b + 256 * little_endian bs

-- Eight bytes, and those behind them
uint64_le_lem :
    (bs : Bytes)
    → 8 ≤ length bs
    → IsBytes bs
    → (little_endian bs ≡ uint64_le bs + 2 ^ 64 * little_endian (drop 8 bs)) × (uint64_le bs < word)
unfolding little_endian uint64_le
uint64_le_lem (a ∷ b ∷ c ∷ d ∷ e ∷ f ∷ g ∷ h ∷ rest) size
      (a', (b', (c', (d', (e', (f', (g', (h', _)))))))) =
    (omega arith, omega arith)
uint64_le_lem [] size bytes = absurd (omega arith)
uint64_le_lem (a ∷ []) size bytes = absurd (omega arith)
uint64_le_lem (a ∷ b ∷ []) size bytes = absurd (omega arith)
uint64_le_lem (a ∷ b ∷ c ∷ []) size bytes = absurd (omega arith)
uint64_le_lem (a ∷ b ∷ c ∷ d ∷ []) size bytes = absurd (omega arith)
uint64_le_lem (a ∷ b ∷ c ∷ d ∷ e ∷ []) size bytes = absurd (omega arith)
uint64_le_lem (a ∷ b ∷ c ∷ d ∷ e ∷ f ∷ []) size bytes = absurd (omega arith)
uint64_le_lem (a ∷ b ∷ c ∷ d ∷ e ∷ f ∷ g ∷ []) size bytes = absurd (omega arith)

abbrev no_bytes : Bytes
no_bytes = []

drop_nil : (n : ℕ) → drop n no_bytes ≡ no_bytes
drop_nil zero = refl
drop_nil (suc n) = refl

drop-drop : (m n : ℕ) (bs : Bytes) → drop m (drop n bs) ≡ drop (n + m) bs
drop-drop m zero bs = let e : m ≡ 0 + m = omega arith in ap (λ k. drop k bs) e
drop-drop m (suc n) [] = drop_nil m ∙ sym (drop_nil (suc n + m))
drop-drop m (suc n) (b ∷ bs) =
    let e : suc (n + m) ≡ suc n + m = omega arith in drop-drop m n bs ∙ ap (λ k. drop k (b ∷ bs)) e

nothing_left : (bs : Bytes) → length bs ≡ 32 → little_endian (drop 32 bs) ≡ 0
unfolding little_endian
nothing_left bs size = ap little_endian (drop_all 32 bs (omega arith))

-- What feSetBytes reads is the number without bit 255, modulo p.
pub fe_set_bytes_lem :
    (bs : Bytes)
    → length bs ≡ 32
    → IsBytes bs
    → IsReduced (fe_set_bytes bs) × (val (fe_set_bytes bs) ≡ little_endian bs % 2 ^ 255 % prime)
unfolding fe_set_bytes
fe_set_bytes_lem bs size bytes =
    let size1 = length-drop 8 bs in
    let size2 = length-drop 16 bs in
    let size3 = length-drop 24 bs in
    let (e0, h0) = uint64_le_lem bs (omega arith) bytes in
    let (e1, h1) = uint64_le_lem (drop 8 bs) (omega arith) (All-drop _ 8 bs bytes) in
    let (e2, h2) = uint64_le_lem (drop 16 bs) (omega arith) (All-drop _ 16 bs bytes) in
    let (e3, h3) = uint64_le_lem (drop 24 bs) (omega arith) (All-drop _ 24 bs bytes) in
    let d1 = ap little_endian (drop-drop 8 8 bs) in
    let d2 = ap little_endian (drop-drop 8 16 bs) in
    let d3 = ap little_endian (drop-drop 8 24 bs) in
    let t3 = uint64_le (drop 24 bs) in
    let x = fe (uint64_le bs) (uint64_le (drop 8 bs)) (uint64_le (drop 16 bs)) (t3 % 2 ^ 63) in
    let whole : val x ≡ little_endian bs % 2 ^ 255 =
      omega (arith, e0, e1, e2, e3, d1, d2, d3, nothing_left bs size, h0, h1, h2, h3) in
    let (reduced, eq) = fe_reduce_lem x (h0, h1, h2, omega arith) (omega (arith, h0, h1, h2)) in
    (reduced, eq ∙ ap (λ t. t % prime) whole)

little_endian-put_uint64_le :
    (v : ℕ) (rest : Bytes)
    → v < word
    → little_endian (put_uint64_le v ++ rest) ≡ v + 2 ^ 64 * little_endian rest
unfolding little_endian put_uint64_le
little_endian-put_uint64_le v rest h = omega arith

little_endian_last : (v : ℕ) → v < word → little_endian (put_uint64_le v) ≡ v
unfolding little_endian put_uint64_le
little_endian_last v h = omega arith

length-fe_bytes : (x : Fe) → length (fe_bytes x) ≡ 32
unfolding fe_bytes put_uint64_le
length-fe_bytes x = refl

put_uint64_le-IsBytes : (v : ℕ) → IsBytes (put_uint64_le v)
unfolding put_uint64_le
put_uint64_le-IsBytes v = (
  omega arith,
  (
    omega arith,
    (omega arith, (omega arith, (omega arith, (omega arith, (omega arith, (omega arith, tt)))))),
  ),
)

-- feBytes writes 32 bytes, which stand for the element.
pub fe_bytes_lem :
    (x : Fe)
    → IsFe x
    → (length (fe_bytes x) ≡ 32) × IsBytes (fe_bytes x) × (little_endian (fe_bytes x) ≡ val x)
unfolding fe_bytes
fe_bytes_lem x (h0, h1, h2, h3) =
    let b0 = put_uint64_le x.x0 in
    let b1 = put_uint64_le x.x1 in
    let b2 = put_uint64_le x.x2 in
    let b3 = put_uint64_le x.x3 in
    let all = All-append (λ b. b < 256) in
    (
      length-fe_bytes x,
      all b0 (b1 ++ (b2 ++ b3)) (put_uint64_le-IsBytes x.x0) (
          all b1 (b2 ++ b3) (put_uint64_le-IsBytes x.x1)
            (all b2 b3 (put_uint64_le-IsBytes x.x2) (put_uint64_le-IsBytes x.x3))),
      omega (
        arith,
        little_endian-put_uint64_le x.x0 (b1 ++ (b2 ++ b3)) h0,
        little_endian-put_uint64_le x.x1 (b2 ++ b3) h1,
        little_endian-put_uint64_le x.x2 b3 h2,
        little_endian_last x.x3 h3,
      ),
    )
