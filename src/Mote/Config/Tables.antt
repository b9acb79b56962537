-- ===== src/Mote/Config/Tables.antt =====
-- mote/config.go: maps as entries in the order of their keys.
use mathlib.Core.Path.{subst}
use cmd.Prelude.{
  ◌≡◌, refl, sym, ap, inl, inr, true, false, Bool-cases, [], ◌∷◌, ◌++◌, arith, Bytes, bytes_eq,
  bytes_eq_iff, All, if◌then◌else◌,
}
use cmd.Prelude.Text.{bytes_ltb}
use cmd.Prelude.Order.{bytes_ltb_total, bytes_ltb_trans, bytes_ltb_irrefl}
use cmd.Mote.Config.{Table, get, put}

-- Every key of t is larger.
abbrev pub IsAbove : Bytes → Table → Type 0
IsAbove key = All (λ e. bytes_ltb key e.0 ≡ true)

abbrev pub IsSorted : Table → Type 0
IsSorted [] = Unit
IsSorted (e ∷ t) = IsAbove e.0 t × IsSorted t

-- Every key of t is smaller.
abbrev pub IsBelow : Table → Bytes → Type 0
IsBelow t key = All (λ e. bytes_ltb e.0 key ≡ true) t

pub get-put :
    (key other value : Bytes) (t : Table)
    → get other (put key value t) ≡ (if bytes_eq other key then value else get other t)
unfolding get put
get-put key other value [] = refl
get-put key other value ((k, v) ∷ t) = ground (
  arith,
  get-put key other value t,
  bytes_eq_iff key k,
  bytes_eq_iff other k,
  bytes_eq_iff other key,
)

-- What holds of the entries and of the new one holds behind put.
pub put-All :
    (P : Bytes × Bytes → Type 0) (key value : Bytes) (t : Table)
    → P (key, value)
    → All P t
    → All P (put key value t)
unfolding put
put-All P key value [] p all = (p, tt)
put-All P key value ((k, v) ∷ t) p (q, all) = elim (Bool-cases (bytes_eq key k)) [
  | inl same ↦ rw same (p, all)
  | inr differ ↦ elim (Bool-cases (bytes_ltb key k)) [
    | inl less ↦ rw (differ, less) (p, (q, all))
    | inr more ↦ rw (differ, more) (q, put-All P key value t p all)
  ]
]

not_less : (v w : Bytes) → bytes_ltb v w ≡ true → (bytes_ltb w v ≡ false) × (bytes_eq w v ≡ false)
not_less v w h =
    let never = bytes_ltb_irrefl v in
    (
      elim (Bool-cases (bytes_ltb w v)) [
        | inl less ↦ let loop = bytes_ltb_trans v w v h less in absurd cc
        | inr more ↦ more
      ],
      elim (Bool-cases (bytes_eq w v)) [
        | inl same ↦ let equal = (bytes_eq_iff w v).0 same in absurd cc
        | inr differ ↦ differ
      ],
    )

-- The other case of a key that is neither equal nor less.
more_than : (v w : Bytes) → bytes_eq v w ≡ false → bytes_ltb v w ≡ false → bytes_ltb w v ≡ true
more_than v w differ not = ground (arith, bytes_ltb_total v w, bytes_eq_iff v w)

IsAbove-trans : (j k : Bytes) (t : Table) → bytes_ltb j k ≡ true → IsAbove k t → IsAbove j t
IsAbove-trans j k [] less above = tt
IsAbove-trans j k (e ∷ t) less (first, above) =
    (bytes_ltb_trans j k e.0 less first, IsAbove-trans j k t less above)

-- A key above all others goes to the end.
pub put_last :
    (key value : Bytes) (t : Table) → IsBelow t key → put key value t ≡ t ++ ((key, value) ∷ [])
unfolding put
put_last key value [] below = refl
put_last key value ((k, v) ∷ t) (less, below) =
    let (not, differ) = not_less k key less in
    rw (differ, not) (ap (λ r. (k, v) ∷ r) (put_last key value t below))

pub put-IsSorted : (key value : Bytes) (t : Table) → IsSorted t → IsSorted (put key value t)
unfolding put
put-IsSorted key value [] sorted = (tt, tt)
put-IsSorted key value ((k, v) ∷ t) (above, sorted) = elim (Bool-cases (bytes_eq key k)) [
  | inl same ↦
      let equal : k ≡ key = sym ((bytes_eq_iff key k).0 same) in
      rw same (subst (λ j. IsAbove j t) equal above, sorted)
  | inr differ ↦ elim (Bool-cases (bytes_ltb key k)) [
    | inl less ↦ rw (differ, less) ((less, IsAbove-trans key k t less above), (above, sorted))
    | inr more ↦
        rw (differ, more)
          (
            put-All (λ e. bytes_ltb k e.0 ≡ true) key value t (more_than key k differ more) above,
            put-IsSorted key value t sorted,
          )
  ]
]
