-- ===== src/Prelude/Text.antt =====
-- Text as bytes (package strings), as far as the programs use it.
use Prim.Native.Nat.{ℕ, zero, suc, ◌-◌}
use mathlib.Core.Bool.{Bool, true, false, ◌&&◌, ◌||◌}
use mathlib.Core.List.{[], ◌∷◌}
use cmd.Prelude.Tests.{leb, ltb, ◌==◌, if◌then◌else◌}
use cmd.Prelude.Lists.{Bytes, length, take, drop, bytes_eq}

-- The ASCII bytes that are space (unicode.IsSpace).
abbrev pub is_space : ℕ → Bool
is_space c = c == 32 || leb 9 c && leb c 13

abbrev pub is_newline : ℕ → Bool
is_newline c = c == b'\n' || c == b'\r'

-- strings.TrimLeftFunc and strings.TrimRightFunc
unfoldable pub trim_left : (ℕ → Bool) → Bytes → Bytes
trim_left p [] = []
trim_left p (c ∷ s) = let rest = trim_left p s in if p c then rest else c ∷ s

-- What is left of `c ∷ t`, where `t` is trimmed already.
unfoldable pub trim_cons : (ℕ → Bool) → ℕ → Bytes → Bytes
trim_cons p c [] = if p c then [] else c ∷ []
trim_cons p c (d ∷ t) = c ∷ d ∷ t

unfoldable pub trim_right : (ℕ → Bool) → Bytes → Bytes
unfolding trim_cons
trim_right p [] = []
trim_right p (c ∷ s) = trim_cons p c (trim_right p s)

-- The UTF-8 encodings of the runes outside ASCII that are space: U+0085 and U+00A0 in two bytes, and
-- U+1680, U+2000 to U+200A, U+2028, U+2029, U+202F, U+205F and U+3000 in three.
abbrev pub is_space2 : ℕ → ℕ → Bool
is_space2 c d = c == 0xc2 && (d == 0x85 || d == 0xa0)

abbrev pub is_space3 : ℕ → ℕ → ℕ → Bool
is_space3 c d e =
    c == 0xe1 && (d == 0x9a && e == 0x80)
    || c == 0xe2
      && (d == 0x80 && (leb 0x80 e && leb e 0x8a || e == 0xa8 || e == 0xa9 || e == 0xaf)
          || d == 0x81 && e == 0x9f)
    || c == 0xe3 && (d == 0x80 && e == 0x80)

-- The number of bytes of the space that a text starts with, 0 if it starts with none.
unfoldable pub width3 : ℕ → ℕ → Bytes → ℕ
width3 c d [] = 0
width3 c d (e ∷ s) = if is_space3 c d e then 3 else 0

unfoldable pub width2 : ℕ → Bytes → ℕ
unfolding width3
width2 c [] = 0
width2 c (d ∷ s) = if is_space2 c d then 2 else width3 c d s

unfoldable pub space_width : Bytes → ℕ
unfolding width2
space_width [] = 0
space_width (c ∷ s) = if is_space c then 1 else width2 c s

-- strings.TrimLeftFunc(s[k:], unicode.IsSpace)
unfoldable pub trim_front : ℕ → Bytes → Bytes
unfolding space_width
trim_front k [] = []
trim_front zero (c ∷ s) = elim (space_width (c ∷ s)) [ zero ↦ c ∷ s | suc k ↦ trim_front k s ]
trim_front (suc k) (c ∷ s) = trim_front k s

abbrev pub is_nil : Bytes → Bool
is_nil [] = true
is_nil (c ∷ s) = false

-- strings.TrimRightFunc(s, unicode.IsSpace): the encoding of a space starts at no byte within one.
unfoldable pub trim_back : Bytes → Bytes
unfolding trim_front
trim_back [] = []
trim_back (c ∷ s) = let rest = trim_back s in if is_nil (trim_front 0 (c ∷ s)) then [] else c ∷ rest

unfoldable pub trim_space : Bytes → Bytes
unfolding trim_front trim_back
trim_space s = trim_back (trim_front 0 s)

-- strings.ContainsFunc
unfoldable pub contains_any : (ℕ → Bool) → Bytes → Bool
contains_any p [] = false
contains_any p (c ∷ s) = p c || contains_any p s

-- s[:i] for i = strings.IndexFunc(s, p), or s where no byte fits
unfoldable pub before : (ℕ → Bool) → Bytes → Bytes
before p [] = []
before p (c ∷ s) = let rest = before p s in if p c then [] else c ∷ rest

-- strings.HasPrefix(s, prefix)
unfoldable pub has_prefix : Bytes → Bytes → Bool
has_prefix s p = bytes_eq (take (length p) s) p

-- strings.HasSuffix(s, suffix)
unfoldable pub has_suffix : Bytes → Bytes → Bool
has_suffix s p = leb (length p) (length s) && bytes_eq (drop (length s - length p) s) p

-- The order of strings, and bytes.Compare(v, w) < 0
unfoldable pub bytes_ltb : Bytes → Bytes → Bool
bytes_ltb [] [] = false
bytes_ltb [] (b ∷ w) = true
bytes_ltb (a ∷ v) [] = false
bytes_ltb (a ∷ v) (b ∷ w) = let rest = bytes_ltb v w in if a == b then rest else ltb a b
