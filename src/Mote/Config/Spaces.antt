-- ===== src/Mote/Config/Spaces.antt =====
-- strings.TrimSpace on text in UTF-8, as mote/config.go uses it: what it leaves, and what it makes of a
-- comment.
use mathlib.Core.Path.{subst}
use cmd.Prelude.{
  ℕ, zero, suc, ◌≤◌, ◌≡◌, ◌⊎◌, refl, sym, ap, ◌∙◌, inl, inr, Bool, true, false, ◌&&◌, ◌||◌,
  Bool-cases, [], ◌∷◌, ◌++◌, arith, Bytes, codes, All, ◌==◌, if◌then◌else◌, if_true, if_false,
  length, bytes_eq,
}
use cmd.Prelude.Text.{
  is_space, is_newline, is_space2, is_space3, width3, width2, space_width, trim_front, trim_back,
  is_nil, trim_space, trim_left, trim_right, trim_cons, has_prefix,
}
use cmd.Mote.Config.{is_blank, is_comment}
use cmd.Mote.Config.Trims.{IsTrimmed}

pub Bytes-cases : (s : Bytes) → (s ≡ []) ⊎ ((c : ℕ) × (t : Bytes) × (s ≡ c ∷ t))
Bytes-cases [] = inl refl
Bytes-cases (c ∷ t) = inr (c, t, refl)

ℕ-cases : (n : ℕ) → (n ≡ 0) ⊎ ((m : ℕ) × (n ≡ suc m))
ℕ-cases zero = inl refl
ℕ-cases (suc m) = inr (m, refl)

-- trim_front behind the width of the first rune.
abbrev by_width : ℕ → Bytes → ℕ → Bytes
by_width c s n = elim n [ zero ↦ c ∷ s | suc k ↦ trim_front k s ]

pub trim_front_eq :
    (c : ℕ) (s : Bytes) (n : ℕ) → space_width (c ∷ s) ≡ n → trim_front 0 (c ∷ s) ≡ by_width c s n
unfolding trim_front
trim_front_eq c s n e = ap (by_width c s) e

space_width_one : (c : ℕ) (s : Bytes) → is_space c ≡ true → space_width (c ∷ s) ≡ 1
unfolding space_width
space_width_one c s h = if_true _ _ h

pub trim_front_skip :
    (c : ℕ) (s : Bytes) → is_space c ≡ true → trim_front 0 (c ∷ s) ≡ trim_front 0 s
trim_front_skip c s h = trim_front_eq c s 1 (space_width_one c s h)

pub solid-is_space : (c : ℕ) (s : Bytes) → space_width (c ∷ s) ≡ 0 → is_space c ≡ false
solid-is_space c s h = elim (Bool-cases (is_space c)) [
  | inr e ↦ e
  | inl e ↦ absurd (omega (arith, h, space_width_one c s e))
]

pub trim_front_head :
    (k : ℕ) (s : Bytes) (c : ℕ) (t : Bytes) → trim_front k s ≡ c ∷ t → space_width (c ∷ t) ≡ 0
unfolding trim_front
trim_front_head k [] c t h = cc
trim_front_head (suc k) (d ∷ s) c t h = trim_front_head k s c t h
trim_front_head zero (d ∷ s) c t h = elim (ℕ-cases (space_width (d ∷ s))) [
  | inl e ↦
      let same : d ∷ s ≡ c ∷ t = sym (trim_front_eq d s 0 e) ∙ h in ap space_width (sym same) ∙ e
  | inr (k, e) ↦ trim_front_head k s c t (sym (trim_front_eq d s (suc k) e) ∙ h)
]

pub trim_front-suffix : (k : ℕ) (s : Bytes) → (front : Bytes) × (s ≡ front ++ trim_front k s)
unfolding trim_front
trim_front-suffix k [] = ([], refl)
trim_front-suffix (suc k) (c ∷ s) =
    let (front, e) = trim_front-suffix k s in (c ∷ front, ap (λ t. c ∷ t) e)
trim_front-suffix zero (c ∷ s) = elim (ℕ-cases (space_width (c ∷ s))) [
  | inl e ↦ ([], sym (trim_front_eq c s 0 e))
  | inr (k, e) ↦
      let (front, whole) = trim_front-suffix k s in
      (
        c ∷ front,
        ap (λ t. c ∷ t) whole ∙ ap (λ t. c ∷ (front ++ t)) (sym (trim_front_eq c s (suc k) e)),
      )
]

-- A rune that is no space stays.
pub trim_back_solid :
    (c : ℕ) (s : Bytes) → space_width (c ∷ s) ≡ 0 → trim_back (c ∷ s) ≡ c ∷ trim_back s
unfolding trim_back
trim_back_solid c s h =
    let kept : is_nil (trim_front 0 (c ∷ s)) ≡ false = ap is_nil (trim_front_eq c s 0 h) in
    if_false _ _ kept

back_nil : (s : Bytes) → trim_back s ≡ [] → is_nil (trim_front 0 s) ≡ true
unfolding trim_back trim_front
back_nil [] h = refl
back_nil (c ∷ s) h = elim (Bool-cases (is_nil (trim_front 0 (c ∷ s)))) [
  | inl e ↦ e
  | inr e ↦ absurd (let gone : c ∷ trim_back s ≡ [] = sym (if_false _ _ e) ∙ h in cc)
]

pub trim_back-All : (P : ℕ → Type 0) (s : Bytes) → All P s → All P (trim_back s)
unfolding trim_back
trim_back-All P [] all = tt
trim_back-All P (c ∷ s) (h, all) = elim (Bool-cases (is_nil (trim_front 0 (c ∷ s)))) [
  | inl e ↦ subst (All P) (sym (if_true [] (c ∷ trim_back s) e)) tt
  | inr e ↦ subst (All P) (sym (if_false [] (c ∷ trim_back s) e)) (h, trim_back-All P s all)
]

newline-is_space : (c : ℕ) → is_newline c ≡ true → is_space c ≡ true
newline-is_space c h = ground arith

-- What is left ends in no newline.
kept-IsTrimmed :
    (c : ℕ) (s : Bytes)
    → is_nil (trim_front 0 (c ∷ s)) ≡ false
    → IsTrimmed is_newline (trim_back s)
    → IsTrimmed is_newline (c ∷ trim_back s)
unfolding trim_right trim_cons
kept-IsTrimmed c s kept rest = elim (Bytes-cases (trim_back s)) [
  | inr (d, u, e) ↦ ap (trim_cons is_newline c) rest ∙ rw e refl
  | inl e ↦
      let last : is_newline c ≡ false = elim (Bool-cases (is_newline c)) [
        | inr other ↦ other
        | inl new ↦
            let gone = ap is_nil (trim_front_skip c s (newline-is_space c new)) ∙ back_nil s e in
            absurd (let both : false ≡ true = sym kept ∙ gone in cc)
      ] in
      ap (trim_cons is_newline c) (rest ∙ e) ∙ if_false [] (c ∷ []) last ∙ ap (λ t. c ∷ t) (sym e)
]

pub trim_back-IsTrimmed : (s : Bytes) → IsTrimmed is_newline (trim_back s)
unfolding trim_back trim_right
trim_back-IsTrimmed [] = refl
trim_back-IsTrimmed (c ∷ s) = elim (Bool-cases (is_nil (trim_front 0 (c ∷ s)))) [
  | inl e ↦ subst (IsTrimmed is_newline) (sym (if_true [] (c ∷ trim_back s) e)) refl
  | inr e ↦
      subst (IsTrimmed is_newline) (sym (if_false [] (c ∷ trim_back s) e))
        (kept-IsTrimmed c s e (trim_back-IsTrimmed s))
]

-- Whether a text starts a comment, or is empty.
abbrev pub starts_comment : Bytes → Bool
starts_comment [] = true
starts_comment (c ∷ s) = c == b'#'

-- Whether the first rune that is no space starts a comment, or there is none.
abbrev pub skips : Bytes → Bool
skips s = starts_comment (trim_front 0 s)

and_true : (b : Bool) → b && true ≡ b
and_true true = refl
and_true false = refl

abbrev comment_of : Bytes → Bool
comment_of s = length s == 0 || has_prefix s (codes "#")

first_comment : (c : ℕ) (s : Bytes) → comment_of (c ∷ s) ≡ (c == b'#')
unfolding has_prefix bytes_eq
first_comment c s =
    let some_bytes : (length (c ∷ s) == 0) ≡ false = ground arith in
    ap (λ b. b || has_prefix (c ∷ s) (codes "#")) some_bytes ∙ and_true (c == b'#')

pub is_comment-skips : (s : Bytes) → is_comment s ≡ skips s
unfolding is_comment trim_space trim_back
is_comment-skips s = elim (Bytes-cases (trim_front 0 s)) [
  | inl e ↦ ap (λ t. comment_of (trim_back t)) e ∙ ap starts_comment (sym e)
  | inr (c, t, e) ↦
      ap (λ t. comment_of (trim_back t)) e
      ∙ ap comment_of (trim_back_solid c t (trim_front_head 0 s c t e))
      ∙ first_comment c (trim_back t)
      ∙ ap starts_comment (sym e)
]

blank-is_space : (c : ℕ) → is_blank c ≡ true → is_space c ≡ true
blank-is_space c h = ground arith

pub skips-trim_left : (s : Bytes) → skips (trim_left is_blank s) ≡ skips s
unfolding trim_left
skips-trim_left [] = refl
skips-trim_left (c ∷ s) = elim (Bool-cases (is_blank c)) [
  | inl blank ↦
      ap skips (if_true (trim_left is_blank s) (c ∷ s) blank)
      ∙ skips-trim_left s
      ∙ ap starts_comment (sym (trim_front_skip c s (blank-is_space c blank)))
  | inr other ↦ ap skips (if_false (trim_left is_blank s) (c ∷ s) other)
]

-- A blank is in the encoding of no other space.
width2_blank : (c d : ℕ) (t : Bytes) → is_blank d ≡ true → width2 c (d ∷ t) ≡ 0
unfolding width2 width3
width2_blank c d [] h = ground arith
width2_blank c d (e ∷ t) h = ground arith

width3_blank : (c e d : ℕ) (t : Bytes) → is_blank d ≡ true → width3 c e (d ∷ t) ≡ 0
unfolding width3
width3_blank c e d t h = ground arith

if_le : (b : Bool) (x y n : ℕ) → x ≤ n → y ≤ n → (if b then x else y) ≤ n
if_le true x y n h k = h
if_le false x y n h k = k

width_same :
    (c d d' : ℕ) (f t t' : Bytes)
    → is_blank d ≡ true
    → is_blank d' ≡ true
    → space_width (c ∷ (f ++ (d ∷ t))) ≡ space_width (c ∷ (f ++ (d' ∷ t')))
unfolding space_width width2 width3
width_same c d d' [] t t' h h' =
    ap (λ n. if is_space c then 1 else n) (width2_blank c d t h ∙ sym (width2_blank c d' t' h'))
width_same c d d' (e ∷ []) t t' h h' =
    ap (λ n. if is_space c then 1 else (if is_space2 c e then 2 else n))
      (width3_blank c e d t h ∙ sym (width3_blank c e d' t' h'))
width_same c d d' (e ∷ g ∷ f) t t' h h' = refl

width_fits :
    (c d : ℕ) (f t : Bytes) → is_blank d ≡ true → space_width (c ∷ (f ++ (d ∷ t))) ≤ suc (length f)
unfolding space_width width2 width3
width_fits c d [] t h =
    if_le _ 1 (width2 c (d ∷ t)) 1 (omega arith) (omega (arith, width2_blank c d t h))
width_fits c d (e ∷ []) t h =
    let third : width3 c e (d ∷ t) ≤ 2 = omega (arith, width3_blank c e d t h) in
    if_le _ 1 (if is_space2 c e then 2 else width3 c e (d ∷ t)) 2 (omega arith)
      (if_le _ 2 (width3 c e (d ∷ t)) 2 (omega arith) third)
width_fits c d (e ∷ g ∷ f) t h =
    let third : (if is_space3 c e g then 3 else 0) ≤ 3 =
      if_le _ 3 0 3 (omega arith) (omega arith) in
    let second : (if is_space2 c e then 2 else (if is_space3 c e g then 3 else 0)) ≤ 3 =
      if_le _ 2 _ 3 (omega arith) third in
    let all : space_width (c ∷ e ∷ g ∷ (f ++ (d ∷ t))) ≤ 3 = if_le _ 1 _ 3 (omega arith) second in
    omega (arith, all)

-- Behind some text, what starts with a blank matters by its own first rune only.
pub skips-append :
    (k : ℕ) (front : Bytes) (d d' : ℕ) (t t' : Bytes)
    → k ≤ length front
    → is_blank d ≡ true
    → is_blank d' ≡ true
    → skips (d ∷ t) ≡ skips (d' ∷ t')
    → starts_comment (trim_front k (front ++ (d ∷ t)))
      ≡ starts_comment (trim_front k (front ++ (d' ∷ t')))
unfolding trim_front
skips-append zero [] d d' t t' fits h h' same = same
skips-append (suc k) [] d d' t t' fits h h' same = absurd (omega arith)
skips-append (suc k) (c ∷ front) d d' t t' fits h h' same =
    skips-append k front d d' t t' (omega arith) h h' same
skips-append zero (c ∷ front) d d' t t' fits h h' same =
    let s = front ++ (d ∷ t) in
    let s' = front ++ (d' ∷ t') in
    let widths = width_same c d d' front t t' h h' in
    elim (ℕ-cases (space_width (c ∷ s))) [
      | inl e ↦
          ap starts_comment (trim_front_eq c s 0 e)
          ∙ ap starts_comment (sym (trim_front_eq c s' 0 (sym widths ∙ e)))
      | inr (k, e) ↦
          ap starts_comment (trim_front_eq c s (suc k) e)
          ∙ skips-append k front d d' t t' (omega (arith, e, width_fits c d front t h)) h h' same
          ∙ ap starts_comment (sym (trim_front_eq c s' (suc k) (sym widths ∙ e)))
    ]
