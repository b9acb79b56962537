-- ===== src/Gofixerr/Edit/Order.antt =====
-- The order in which edits are applied.
use cmd.Prelude.{
  ℕ, ◌≤◌, ◌<◌, ◌≡◌, refl, ap, ◌∙◌, ◌⊎◌, inl, inr, true, false, ◌&&◌, List, [], ◌∷◌, arith, All,
  ◌==◌, if◌then◌else◌, Bool-cases,
}
use cmd.Gofixerr.Edit.{Edit, less, place, stable}

-- x may stand before y.
abbrev pub InOrder : Edit → Edit → Type 0
InOrder x y = (x.start < y.start) ⊎ ((x.start ≡ y.start) × (x.end ≤ y.end))

abbrev pub IsSorted : List Edit → Type 0
IsSorted [] = Unit
IsSorted (e ∷ es) = All (InOrder e) es × IsSorted es

-- The edits of the range [a, b), in their order.
pub at_range : ℕ → ℕ → List Edit → List Edit
at_range a b [] = []
at_range a b (e ∷ es) =
    let rest = at_range a b es in if e.start == a && e.end == b then e ∷ rest else rest

less-InOrder : (x y : Edit) → less x y ≡ true → InOrder x y
unfolding less
less-InOrder x y h = ground arith

not-less-InOrder : (x y : Edit) → less x y ≡ false → InOrder y x
unfolding less
not-less-InOrder x y h = ground arith

InOrder-trans : (x y z : Edit) → InOrder x y → InOrder y z → InOrder x z
InOrder-trans x y z h k = ground arith

All-InOrder : (x y : Edit) (es : List Edit) → InOrder x y → All (InOrder y) es → All (InOrder x) es
All-InOrder x y [] h k = tt
All-InOrder x y (e ∷ es) h (p, k) = (InOrder-trans x y e h p, All-InOrder x y es h k)

All-place :
    (x e : Edit) (es : List Edit) → InOrder x e → All (InOrder x) es → All (InOrder x) (place e es)
unfolding place
All-place x e [] h k = (h, tt)
All-place x e (y ∷ es) h (p, k) = elim (Bool-cases (less y e)) [
  | inl t ↦ rw (t) (p, All-place x e es h k)
  | inr t ↦ rw (t) (h, (p, k))
]

place-IsSorted : (e : Edit) (es : List Edit) → IsSorted es → IsSorted (place e es)
unfolding place
place-IsSorted e [] s = (tt, tt)
place-IsSorted e (y ∷ es) (k, s) = elim (Bool-cases (less y e)) [
  | inl t ↦ rw (t) (All-place y e es (less-InOrder y e t) k, place-IsSorted e es s)
  | inr t ↦ let h = not-less-InOrder y e t in rw (t) ((h, All-InOrder e y es h k), (k, s))
]

stable-IsSorted : (es : List Edit) → IsSorted (stable es)
unfolding stable
stable-IsSorted [] = tt
stable-IsSorted (e ∷ es) = place-IsSorted e (stable es) (stable-IsSorted es)

at_range-place :
    (a b : ℕ) (e : Edit) (es : List Edit) → at_range a b (place e es) ≡ at_range a b (e ∷ es)
unfolding at_range place less
at_range-place a b e [] = refl
at_range-place a b e (y ∷ es) = ground (arith, at_range-place a b e es)

at_range-cons :
    (a b : ℕ) (e : Edit) (xs ys : List Edit)
    → at_range a b xs ≡ at_range a b ys
    → at_range a b (e ∷ xs) ≡ at_range a b (e ∷ ys)
unfolding at_range
at_range-cons a b e xs ys h = ap (λ rest. if e.start == a && e.end == b then e ∷ rest else rest) h

at_range-stable : (a b : ℕ) (es : List Edit) → at_range a b (stable es) ≡ at_range a b es
unfolding stable
at_range-stable a b [] = refl
at_range-stable a b (e ∷ es) =
    at_range-place a b e (stable es) ∙ at_range-cons a b e (stable es) es (at_range-stable a b es)

-- The queue is sorted by start and then by end, and of every range it holds the same edits as
-- before, in the order in which they were queued.
pub stable_lem :
    (es : List Edit)
    → IsSorted (stable es) × ((a b : ℕ) → at_range a b (stable es) ≡ at_range a b es)
stable_lem es = (stable-IsSorted es, λ a b. at_range-stable a b es)
