-- ===== src/Mote/Cpace/Padding.antt =====
-- generatorString: what the padding hides, and what the string still tells apart.
use cmd.Prelude.{
  ℕ, zero, suc, ◌+◌, ◌-◌, ◌/◌, ◌^◌, ◌≤◌, ◌<◌, ◌≡◌, refl, sym, ap, ◌∙◌, List, [], ◌∷◌, arith, Bytes,
  length, length-append, ◌==◌, ==_iff, true, Bool-cases, inl, inr,
}
use cmd.Mote.Cpace.{
  leb128, prepend_len, lv_cat, max_len_prefix, generator_string, generator_room, zeros, dsi,
  block_size,
}
use cmd.Mote.Cpace.Encoding.{lv_cat-append, lv_cat_injective}

length-zeros : (n : ℕ) → length (zeros n) ≡ n
unfolding zeros
length-zeros zero = refl
length-zeros (suc n) = ap suc (length-zeros n)

pub length-lv_cat :
    (v : Bytes) (vs : List Bytes)
    → length (lv_cat (v ∷ vs)) ≡ length (prepend_len v) + length (lv_cat vs)
unfolding lv_cat
length-lv_cat v vs = length-append (prepend_len v) (lv_cat vs)

pub length-lv_cat_nil : length (lv_cat []) ≡ 0
unfolding lv_cat
length-lv_cat_nil = refl

-- The five values that the string encodes.
abbrev values : Bytes → Bytes → Bytes → List Bytes
values prs ci sid =
    dsi ∷ prs ∷ zeros (block_size - 1 - length (lv_cat (dsi ∷ prs ∷ []))) ∷ ci ∷ sid ∷ []

generator_string-values :
    (prs ci sid : Bytes) → generator_string prs ci sid ≡ lv_cat (values prs ci sid)
unfolding generator_string
generator_string-values prs ci sid =
    let pad = zeros (block_size - 1 - length (lv_cat (dsi ∷ prs ∷ []))) in
    sym (lv_cat-append (dsi ∷ prs ∷ []) (pad ∷ ci ∷ sid ∷ []))

-- No two passwords, channels or sessions give the same string.
pub generator_string_injective :
    (prs prs' ci ci' sid sid' : Bytes)
    → generator_string prs ci sid ≡ generator_string prs' ci' sid'
    → (prs ≡ prs') × (ci ≡ ci') × (sid ≡ sid')
generator_string_injective prs prs' ci ci' sid sid' same =
    let all : values prs ci sid ≡ values prs' ci' sid' =
      lv_cat_injective (values prs ci sid) (values prs' ci' sid') refl
        (sym (generator_string-values prs ci sid) ∙ same ∙ generator_string-values prs' ci' sid') in
    (cc, cc, cc)

-- A number takes one byte for every seven bits that it has.
length-leb128 : (k fuel n : ℕ) → n < 128 ^ suc k → length (leb128 fuel n) ≤ suc k
unfolding leb128
length-leb128 k zero n h = omega arith
length-leb128 zero (suc fuel) n h =
    let last : (n / 128 == 0) ≡ true = (==_iff (n / 128) 0).1 (omega arith) in rw last (omega arith)
length-leb128 (suc k) (suc fuel) n h = elim (Bool-cases (n / 128 == 0)) [
  | inl last ↦ rw last (omega arith)
  | inr next ↦ rw next (omega (arith, length-leb128 k fuel (n / 128) (grind arith)))
]

pub length-prepend_len_le :
    (v : Bytes) → length v < 2 ^ 63 → length (prepend_len v) ≤ max_len_prefix + length v
unfolding prepend_len
length-prepend_len_le v h = omega (
  arith,
  length-append (leb128 (suc (length v)) (length v)) v,
  length-leb128 9 (suc (length v)) (length v) (omega arith),
)

-- The buffer that holds the password is never outgrown, so that the code clears all of it.
pub generator_string_room :
    (prs ci sid : Bytes)
    → length prs < 2 ^ 63
    → length ci < 2 ^ 63
    → length sid < 2 ^ 63
    → length (generator_string prs ci sid) ≤ generator_room prs ci sid
unfolding generator_string generator_room
generator_string_room prs ci sid hp hc hs =
    let b = lv_cat (dsi ∷ prs ∷ []) in
    let pad = zeros (block_size - 1 - length b) in
    let zpad = length-zeros (block_size - 1 - length b) in
    omega (
      arith,
      zpad,
      length-lv_cat dsi (prs ∷ []),
      length-lv_cat prs [],
      length-lv_cat_nil,
      length-prepend_len_le dsi (omega arith),
      length-prepend_len_le prs hp,
      length-append b (lv_cat (pad ∷ ci ∷ sid ∷ [])),
      length-lv_cat pad (ci ∷ sid ∷ []),
      length-lv_cat ci (sid ∷ []),
      length-lv_cat sid [],
      length-prepend_len_le pad (omega (arith, zpad)),
      length-prepend_len_le ci hc,
      length-prepend_len_le sid hs,
    )
