-- ===== src/Mote/Cache/Names.antt =====
-- Which hashes `validHash` lets through.
use cmd.Prelude.{
  ℕ, ◌≤◌, ◌≡◌, refl, sym, ◌∙◌, ◌↔◌, ◌⊎◌, inl, inr, true, false, [], ◌∷◌, arith, Bytes, All, length,
  ◌==◌, ==_iff, if_true, if_false, Bool-cases,
}
use cmd.Mote.Cache.{is_hex, all_hex, valid_hash}

-- A lower-case hex digit.
abbrev pub IsDigit : ℕ → Type 0
IsDigit c = ((48 ≤ c) × (c ≤ 57)) ⊎ ((97 ≤ c) × (c ≤ 102))

is_hex_iff : (c : ℕ) → (is_hex c ≡ true) ↔ IsDigit c
unfolding is_hex
is_hex_iff c = ((λ h. grind arith), (λ h. grind arith))

all_hex_iff : (hash : Bytes) → (all_hex hash ≡ true) ↔ All IsDigit hash
unfolding all_hex
all_hex_iff [] = ((λ h. tt), (λ h. refl))
all_hex_iff (c ∷ hash) =
    let (f, g) = all_hex_iff hash in
    elim (Bool-cases (is_hex c)) [
      | inl e ↦ (
        (λ h. ((is_hex_iff c).0 e, f (sym (if_true _ _ e) ∙ h))),
        (λ (h, hs). if_true _ _ e ∙ g hs),
      )
      | inr e ↦ (
        (λ h. let r : false ≡ true = sym (if_false _ _ e) ∙ h in cc),
        (λ (h, hs). let r = (is_hex_iff c).1 h in cc),
      )
    ]

-- `validHash` accepts exactly the names of 64 lower-case hex digits, so none with a separator or a dot.
pub valid_hash_iff :
    (hash : Bytes) → (valid_hash hash ≡ true) ↔ ((length hash ≡ 64) × All IsDigit hash)
unfolding valid_hash
valid_hash_iff hash =
    let (f, g) = all_hex_iff hash in
    elim (Bool-cases (length hash == 64)) [
      | inl e ↦ (
        (λ h. ((==_iff _ _).0 e, f (sym (if_true _ _ e) ∙ h))),
        (λ (h, hs). if_true _ _ e ∙ g hs),
      )
      | inr e ↦ (
        (λ h. let r : false ≡ true = sym (if_false _ _ e) ∙ h in cc),
        (λ (h, hs). let r = (==_iff (length hash) 64).1 h in cc),
      )
    ]
