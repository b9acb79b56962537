-- ===== src/Mote/Cache/Paths/Below.antt =====
-- mote/cache.go, remotePath: where a path leads.
use mathlib.Core.Path.{subst}
use cmd.Prelude.{
  ℕ, ◌≡◌, ◌≢◌, refl, sym, ap, ◌∙◌, Bool, true, false, ◌||◌, inl, inr, Bool-cases, none, some, List,
  [], ◌∷◌, arith, Bytes, All, bytes_eq, bytes_eq_iff, ◌==◌, if◌then◌else◌, if_true, if_false,
}
use cmd.Prelude.Text.{contains_any}
use cmd.Mote.Cache.Paths.{
  push, split, dot, dot_dot, is_among, unwind, is_nothing, clean, strip_volume, remote_path,
}

or_false : (a b : Bool) → (a || b) ≡ false → (a ≡ false) × (b ≡ false)
or_false true b h = cc
or_false false b h = (refl, h)

-- The names that are not empty and not a dot.
pub kept : List Bytes → List Bytes
unfolding is_nothing
kept [] = []
kept (name ∷ names) = let rest = kept names in if is_nothing name then rest else name ∷ rest

clean_lem :
    (stack names : List Bytes)
    → is_among dot_dot names ≡ false
    → clean stack names ≡ unwind stack (kept names)
unfolding clean kept unwind is_among
clean_lem stack [] h = refl
clean_lem stack (name ∷ names) h =
    let (here, there) = or_false _ _ h in
    elim (Bool-cases (is_nothing name)) [
      | inl e ↦
          if_true _ _ e ∙ clean_lem stack names there ∙ ap (unwind stack) (sym (if_true _ _ e))
      | inr e ↦
          if_false _ _ e
          ∙ if_false _ _ here
          ∙ clean_lem (name ∷ stack) names there
          ∙ ap (unwind stack) (sym (if_false _ _ e))
    ]

-- A name of a directory or a file in the directory that it is looked up in.
abbrev pub IsName : Bytes → Type 0
IsName name =
    (name ≢ []) × (name ≢ dot) × (name ≢ dot_dot) × All (λ c. (c ≢ b'/') × (c ≢ b'\\')) name

abbrev IsPart : Bytes → Type 0
IsPart = All (λ c. (c ≢ b'/') × (c ≢ b'\\'))

push-IsPart :
    (c : ℕ) (names : List Bytes)
    → c ≢ b'/'
    → c ≢ b'\\'
    → All IsPart names
    → All IsPart (push c names)
unfolding push
push-IsPart c [] s b all = (((s, b), tt), tt)
push-IsPart c (name ∷ names) s b (part, all) = (((s, b), part), all)

split-IsPart : (p : Bytes) → contains_any (λ c. c == b'\\') p ≡ false → All IsPart (split p)
unfolding split contains_any
split-IsPart [] h = (tt, tt)
split-IsPart (c ∷ p) h =
    let (here, there) = or_false _ _ h in
    let rest = split-IsPart p there in
    elim (Bool-cases (c == b'/')) [
      | inl e ↦ subst (All IsPart) (sym (if_true _ _ e)) (tt, rest)
      | inr e ↦
          subst (All IsPart) (sym (if_false _ _ e))
            (push-IsPart c (split p) (ground arith) (ground arith) rest)
    ]

different : (x y : Bytes) → bytes_eq x y ≡ false → x ≢ y
different x y h e = let r = (bytes_eq_iff x y).1 e in cc

kept-IsName :
    (names : List Bytes)
    → All IsPart names
    → is_among dot_dot names ≡ false
    → All IsName (kept names)
unfolding kept is_among is_nothing
kept-IsName [] all h = tt
kept-IsName (name ∷ names) (part, all) h =
    let (here, there) = or_false _ _ h in
    let rest = kept-IsName names all there in
    elim (Bool-cases (is_nothing name)) [
      | inl e ↦ subst (All IsName) (sym (if_true _ _ e)) rest
      | inr e ↦
          let (full, undotted) = or_false _ _ e in
          subst (All IsName) (sym (if_false _ _ e)) (
            (
              different name [] full,
              different name dot undotted,
              different name dot_dot here,
              part,
            ),
            rest,
          )
    ]

-- The slash in front adds an empty name.
rooted :
    (p : Bytes) → is_among dot_dot (split p) ≡ false → clean [] (split (b'/' ∷ p)) ≡ kept (split p)
unfolding split kept is_nothing is_among bytes_eq unwind
rooted p level = clean_lem [] ([] ∷ split p) level

-- A path that `remotePath` accepts leads to the temporary directory itself or to a place below it, never
-- out of it: it is the names of the client's path without a volume, in order and less the empty ones and
-- the dots, and each of them is the name of a directory or a file, with no separator in it and not `..`.
pub remote_path-IsName :
    (path : Bytes) (names : List Bytes)
    → remote_path path ≡ some names
    → All IsName names × (names ≡ kept (split (strip_volume path)))
unfolding remote_path
remote_path-IsName path names h =
    let p = strip_volume path in
    let bad = contains_any (λ c. c == b'\\') p || is_among dot_dot (split p) in
    elim (Bool-cases bad) [
      | inl e ↦ let r : none ≡ some names = sym (if_true _ _ e) ∙ h in cc
      | inr e ↦
          let (plain, level) =
            or_false (contains_any (λ c. c == b'\\') p) (is_among dot_dot (split p)) e in
          let r : some (clean [] (split (b'/' ∷ p))) ≡ some names = sym (if_false _ _ e) ∙ h in
          let cleaned : clean [] (split (b'/' ∷ p)) ≡ names = cc in
          let same : names ≡ kept (split p) = sym cleaned ∙ rooted p level in
          (subst (All IsName) (sym same) (kept-IsName (split p) (split-IsPart p plain) level), same)
    ]
