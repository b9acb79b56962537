-- ===== src/Prelude/Order.antt =====
-- The order of strings is total, and strict.
use mathlib.Core.Path.{◌≡◌, refl}
use mathlib.Core.Logic.{◌⊎◌, inl, inr}
use mathlib.Core.Bool.{true, false}
use mathlib.Core.List.{[], ◌∷◌}
use native.Mathlib.Omega.{arith}
use cmd.Prelude.Lists.{Bytes}
use cmd.Prelude.Text.{bytes_ltb}

-- Neither of two different values, or exactly one of them, is the smaller.
pub bytes_ltb_total :
    (v w : Bytes)
    → (bytes_ltb v w ≡ true) × (bytes_ltb w v ≡ false)
      ⊎ (bytes_ltb v w ≡ false) × (bytes_ltb w v ≡ true)
      ⊎ (v ≡ w)
unfolding bytes_ltb
bytes_ltb_total [] [] = inr (inr refl)
bytes_ltb_total [] (b ∷ w) = inl (refl, refl)
bytes_ltb_total (a ∷ v) [] = inr (inl (refl, refl))
bytes_ltb_total (a ∷ v) (b ∷ w) = ground (arith, bytes_ltb_total v w)

pub bytes_ltb_irrefl : (v : Bytes) → bytes_ltb v v ≡ false
unfolding bytes_ltb
bytes_ltb_irrefl [] = refl
bytes_ltb_irrefl (a ∷ v) = ground (arith, bytes_ltb_irrefl v)

pub bytes_ltb_trans :
    (u v w : Bytes) → bytes_ltb u v ≡ true → bytes_ltb v w ≡ true → bytes_ltb u w ≡ true
unfolding bytes_ltb
bytes_ltb_trans [] [] w h k = cc
bytes_ltb_trans [] (b ∷ v) [] h k = cc
bytes_ltb_trans [] (b ∷ v) (c ∷ w) h k = refl
bytes_ltb_trans (a ∷ u) [] w h k = cc
bytes_ltb_trans (a ∷ u) (b ∷ v) [] h k = cc
bytes_ltb_trans (a ∷ u) (b ∷ v) (c ∷ w) h k = ground (arith, bytes_ltb_trans u v w)
