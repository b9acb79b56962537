-- ===== src/Mote/Config/Trims.antt =====
-- What trimming leaves (package strings).
use cmd.Prelude.{
  ℕ, ◌≡◌, refl, sym, ap, ◌∙◌, inl, inr, Bool, true, false, Bool-cases, [], ◌∷◌, ◌++◌, Bytes, All,
  if_true, if_false, length, drop,
}
use cmd.Prelude.Text.{trim_left, trim_right, trim_cons, before}

module _ (p : ℕ → Bool) where
  -- Nothing to be trimmed at the end.
  abbrev pub IsTrimmed : Bytes → Type 0
  IsTrimmed s = trim_right p s ≡ s

  pub trim_right-append :
      (s : Bytes) (c : ℕ) → p c ≡ true → trim_right p (s ++ (c ∷ [])) ≡ trim_right p s
  unfolding trim_right trim_cons
  trim_right-append [] c h = if_true [] (c ∷ []) h
  trim_right-append (d ∷ s) c h = ap (trim_cons p d) (trim_right-append s c h)

  trim_cons-IsTrimmed : (c : ℕ) (t : Bytes) → IsTrimmed t → IsTrimmed (trim_cons p c t)
  unfolding trim_right trim_cons
  trim_cons-IsTrimmed c [] h = elim (Bool-cases (p c)) [
    | inl hit ↦ rw hit refl
    | inr miss ↦ rw miss (if_false [] (c ∷ []) miss)
  ]
  trim_cons-IsTrimmed c (d ∷ t) h = rw h refl

  pub trim_right-IsTrimmed : (s : Bytes) → IsTrimmed (trim_right p s)
  unfolding trim_right
  trim_right-IsTrimmed [] = refl
  trim_right-IsTrimmed (c ∷ s) = trim_cons-IsTrimmed c (trim_right p s) (trim_right-IsTrimmed s)

  -- Trimmed is what ends with something trimmed, and the other way round.
  pub append-IsTrimmed :
      (s : Bytes) (c : ℕ) (t : Bytes) → IsTrimmed (c ∷ t) → IsTrimmed (s ++ (c ∷ t))
  unfolding trim_right trim_cons
  append-IsTrimmed [] c t h = h
  append-IsTrimmed (d ∷ []) c t h = rw h refl
  append-IsTrimmed (d ∷ e ∷ s) c t h = ap (trim_cons p d) (append-IsTrimmed (e ∷ s) c t h)

  pub tail-IsTrimmed : (d c : ℕ) (t : Bytes) (u : Bytes) → trim_cons p d u ≡ d ∷ c ∷ t → u ≡ c ∷ t
  unfolding trim_cons
  tail-IsTrimmed d c t [] h = elim (Bool-cases (p d)) [
    | inl hit ↦ let none : [] ≡ d ∷ c ∷ t = sym (if_true [] (d ∷ []) hit) ∙ h in absurd cc
    | inr miss ↦ let one : d ∷ [] ≡ d ∷ c ∷ t = sym (if_false [] (d ∷ []) miss) ∙ h in cc
  ]
  tail-IsTrimmed d c t (e ∷ u) h = cc

  pub IsTrimmed-append :
      (s : Bytes) (c : ℕ) (t : Bytes) → IsTrimmed (s ++ (c ∷ t)) → IsTrimmed (c ∷ t)
  unfolding trim_right
  IsTrimmed-append [] c t h = h
  IsTrimmed-append (d ∷ []) c t h = tail-IsTrimmed d c t (trim_right p (c ∷ t)) h
  IsTrimmed-append (d ∷ e ∷ s) c t h =
      IsTrimmed-append (e ∷ s) c t
        (tail-IsTrimmed d e (s ++ (c ∷ t)) (trim_right p (e ∷ (s ++ (c ∷ t)))) h)

  trim_cons-All : (P : ℕ → Type 0) (c : ℕ) (t : Bytes) → P c → All P t → All P (trim_cons p c t)
  unfolding trim_cons
  trim_cons-All P c [] h all = elim (Bool-cases (p c)) [
    | inl hit ↦ rw hit tt
    | inr miss ↦ rw miss (h, tt)
  ]
  trim_cons-All P c (d ∷ t) h all = (h, all)

  pub trim_right-All : (P : ℕ → Type 0) (s : Bytes) → All P s → All P (trim_right p s)
  unfolding trim_right
  trim_right-All P [] all = tt
  trim_right-All P (c ∷ s) (h, all) = trim_cons-All P c (trim_right p s) h (trim_right-All P s all)

  -- What trim_left takes off.
  pub trim_left-suffix : (s : Bytes) → (front : Bytes) × (s ≡ front ++ trim_left p s)
  unfolding trim_left
  trim_left-suffix [] = ([], refl)
  trim_left-suffix (c ∷ s) = elim (Bool-cases (p c)) [
    | inl hit ↦ let (front, e) = trim_left-suffix s in (c ∷ front, rw hit (ap (λ t. c ∷ t) e))
    | inr miss ↦ ([], rw miss refl)
  ]

  pub trim_left-head : (s : Bytes) (c : ℕ) (t : Bytes) → trim_left p s ≡ c ∷ t → p c ≡ false
  unfolding trim_left
  trim_left-head [] c t h = cc
  trim_left-head (d ∷ s) c t h = elim (Bool-cases (p d)) [
    | inl hit ↦ trim_left-head s c t (sym (if_true (trim_left p s) (d ∷ s) hit) ∙ h)
    | inr miss ↦
        let same : d ∷ s ≡ c ∷ t = sym (if_false (trim_left p s) (d ∷ s) miss) ∙ h in
        let is : d ≡ c = cc in sym (ap p is) ∙ miss
  ]

  -- A text is what stands before the first byte that p takes, and the rest.
  pub before-drop : (s : Bytes) → s ≡ before p s ++ drop (length (before p s)) s
  unfolding before
  before-drop [] = refl
  before-drop (c ∷ s) = elim (Bool-cases (p c)) [
    | inl hit ↦ rw hit refl
    | inr miss ↦ rw miss (ap (λ t. c ∷ t) (before-drop s))
  ]

  pub before-All : (s : Bytes) → All (λ c. p c ≡ false) (before p s)
  unfolding before
  before-All [] = tt
  before-All (c ∷ s) = elim (Bool-cases (p c)) [
    | inl hit ↦ rw hit tt
    | inr miss ↦ rw miss (miss, before-All s)
  ]

  pub before-append :
      (s : Bytes) (c : ℕ) (t : Bytes)
      → All (λ d. p d ≡ false) s
      → p c ≡ true
      → before p (s ++ (c ∷ t)) ≡ s
  unfolding before
  before-append [] c t all h = if_true _ _ h
  before-append (d ∷ s) c t (miss, all) h =
      if_false _ _ miss ∙ ap (λ r. d ∷ r) (before-append s c t all h)

  -- What is behind it starts with that byte.
  pub drop-before :
      (s : Bytes) (d : ℕ) (t : Bytes) → drop (length (before p s)) s ≡ d ∷ t → p d ≡ true
  unfolding before
  drop-before [] d t h = cc
  drop-before (c ∷ s) d t h = elim (Bool-cases (p c)) [
    | inl hit ↦
        let same : c ∷ s ≡ d ∷ t =
          sym (ap (λ b. drop (length b) (c ∷ s)) (if_true [] (c ∷ before p s) hit)) ∙ h in
        let is : c ≡ d = cc in sym (ap p is) ∙ hit
    | inr miss ↦
        drop-before s d t
          (sym (ap (λ b. drop (length b) (c ∷ s)) (if_false [] (c ∷ before p s) miss)) ∙ h)
  ]
