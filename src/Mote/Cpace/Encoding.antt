-- ===== src/Mote/Cpace/Encoding.antt =====
-- The encodings of cpace.go read back: prependLen, lvCat, generatorString and transcript.
use cmd.Prelude.{
  ℕ, zero, suc, ◌+◌, ◌-◌, ◌*◌, ◌/◌, ◌≤◌, ◌<◌, ◌≡◌, refl, sym, ap, ◌∙◌, Option, none, some, List, [],
  ◌∷◌, ◌++◌, append_assoc, arith, Bytes, length, length-append, take, drop, take-append,
  drop-append, ltb, leb, ltb→lt, ==_iff, Bool-cases, inl, inr, true, false, ◌%◌, ◌==◌, le→leb,
  if◌then◌else◌,
}
use cmd.Mote.Cpace.{leb128, prepend_len, lv_cat}

-- The reader of a number in LEB128.
abbrev more : ℕ → Option (ℕ × Bytes) → Option (ℕ × Bytes)
more b none = none
more b (some (n, rest)) = some (b - 128 + n * 128, rest)

pub read_len : Bytes → Option (ℕ × Bytes)
read_len [] = none
read_len (b ∷ bs) = let rest = read_len bs in if ltb b 128 then some (b, bs) else more b rest

-- The reader of a value behind its length.
abbrev value_of : Option (ℕ × Bytes) → Option (Bytes × Bytes)
value_of none = none
value_of (some (n, rest)) = if leb n (length rest) then some (take n rest, drop n rest) else none

unfoldable pub read_value : Bytes → Option (Bytes × Bytes)
unfolding read_len
read_value b = value_of (read_len b)

-- The reader of k values.
abbrev with_value : Bytes → Option (List Bytes × Bytes) → Option (List Bytes × Bytes)
with_value v none = none
with_value v (some (vs, rest)) = some (v ∷ vs, rest)

unfoldable pub read_values : ℕ → Bytes → Option (List Bytes × Bytes)
unfolding read_value
read_values zero b = some ([], b)
read_values (suc k) b = elim (read_value b) [
  | none ↦ none
  | some (v, rest) ↦ with_value v (read_values k rest)
]

read_len-leb128 :
    (fuel n : ℕ) (rest : Bytes) → n < fuel → read_len (leb128 fuel n ++ rest) ≡ some (n, rest)
unfolding read_len leb128
read_len-leb128 zero n rest h = absurd (omega arith)
read_len-leb128 (suc fuel) n rest h = elim (Bool-cases (ltb n 128)) [
  | inl small ↦
      let less = ltb→lt n 128 small in
      let byte : n % 256 ≡ n = omega arith in
      let last : (n / 128 == 0) ≡ true = (==_iff (n / 128) 0).1 (omega arith) in
      rw (small, byte, small, last)
  | inr large ↦
      let bound : 128 ≤ n = ground arith in
      let byte : ltb (n % 128 + 128) 128 ≡ false = ground arith in
      let last : (n / 128 == 0) ≡ false = ground arith in
      let sum : n % 128 + 128 - 128 + n / 128 * 128 ≡ n = omega arith in
      rw (large, byte, last, read_len-leb128 fuel (n / 128) rest (omega arith), sum)
]

read_value-prepend_len : (v rest : Bytes) → read_value (prepend_len v ++ rest) ≡ some (v, rest)
unfolding read_value prepend_len
read_value-prepend_len v rest =
    ap (λ t. value_of (read_len t)) (append_assoc (leb128 (suc (length v)) (length v)) v rest)
    ∙ ap value_of (read_len-leb128 (suc (length v)) (length v) (v ++ rest) (omega arith))
    ∙ rw (
      le→leb (length v) (length (v ++ rest)) (omega (arith, length-append v rest)),
      take-append (length v) v rest refl,
      drop-append (length v) v rest refl,
    )

-- What lvCat writes has one reading: the values, and what stands behind them.
pub lv_cat_lem :
    (vs : List Bytes) (rest : Bytes) → read_values (length vs) (lv_cat vs ++ rest) ≡ some (vs, rest)
unfolding read_values lv_cat
lv_cat_lem [] rest = refl
lv_cat_lem (v ∷ vs) rest =
    let whole : read_value (prepend_len v ++ lv_cat vs ++ rest) ≡ some (v, lv_cat vs ++ rest) =
      ap read_value (append_assoc (prepend_len v) (lv_cat vs) rest)
      ∙ read_value-prepend_len v (lv_cat vs ++ rest) in
    rw (whole, read_values, lv_cat_lem vs rest)

pub lv_cat-append : (vs ws : List Bytes) → lv_cat (vs ++ ws) ≡ lv_cat vs ++ lv_cat ws
unfolding lv_cat
lv_cat-append [] ws = refl
lv_cat-append (v ∷ vs) ws =
    ap (λ t. prepend_len v ++ t) (lv_cat-append vs ws)
    ∙ sym (append_assoc (prepend_len v) (lv_cat vs) (lv_cat ws))

-- Equal encodings of equally many values are of equal values.
pub lv_cat_injective :
    (vs ws : List Bytes) → length vs ≡ length ws → lv_cat vs ≡ lv_cat ws → vs ≡ ws
lv_cat_injective vs ws size same =
    let left = lv_cat_lem vs [] in
    let right = lv_cat_lem ws [] in
    let both : some (vs, []) ≡ some (ws, []) =
      sym left
      ∙ ap (λ t. read_values (length vs) (t ++ [])) same
      ∙ ap (λ n. read_values n (lv_cat ws ++ [])) size
      ∙ right in
    cc
