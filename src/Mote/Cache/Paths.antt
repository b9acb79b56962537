-- ===== src/Mote/Cache/Paths.antt =====
-- mote/cache.go, remotePath: where the server stores a file that a client names by a path, as the names
-- below the temporary directory.
pub mod Below
use cmd.Prelude.{
  ℕ, Bool, true, false, ◌||◌, Option, none, some, List, [], ◌∷◌, Bytes, bytes_eq, ◌==◌,
  if◌then◌else◌,
}
use cmd.Prelude.Text.{contains_any}

unfoldable pub push : ℕ → List Bytes → List Bytes
push c [] = (c ∷ []) ∷ []
push c (name ∷ names) = (c ∷ name) ∷ names

-- strings.Split(p, "/")
unfoldable pub split : Bytes → List Bytes
unfolding push
split [] = [] ∷ []
split (c ∷ p) = let rest = split p in if c == b'/' then [] ∷ rest else push c rest

abbrev pub dot : Bytes
dot = b'.' ∷ []

abbrev pub dot_dot : Bytes
dot_dot = b'.' ∷ b'.' ∷ []

-- slices.Contains
unfoldable pub is_among : Bytes → List Bytes → Bool
is_among name [] = false
is_among name (x ∷ names) = bytes_eq x name || is_among name names

unfoldable pub unwind : List Bytes → List Bytes → List Bytes
unwind [] names = names
unwind (name ∷ stack) names = unwind stack (name ∷ names)

unfoldable pub pop : List Bytes → List Bytes
pop [] = []
pop (name ∷ stack) = stack

unfoldable pub is_nothing : Bytes → Bool
is_nothing name = bytes_eq name [] || bytes_eq name dot

-- path.Clean of a rooted path, on the names in it: the last name comes first in `stack`.
unfoldable pub clean : List Bytes → List Bytes → List Bytes
unfolding is_nothing pop unwind
clean stack [] = unwind stack []
clean stack (name ∷ names) =
    let skipped = clean stack names in
    let up = clean (pop stack) names in
    let down = clean (name ∷ stack) names in
    if is_nothing name then skipped else if bytes_eq name dot_dot then up else down

-- The path without a Windows volume.
unfoldable pub strip_volume : Bytes → Bytes
strip_volume (c ∷ d ∷ p) = if d == b':' then p else c ∷ d ∷ p
strip_volume p = p

-- remotePath; filepath.Join puts the temporary directory, which is clean, in front.
unfoldable pub remote_path : Bytes → Option (List Bytes)
unfolding strip_volume is_among
remote_path slash_path =
    let p = strip_volume slash_path in
    if contains_any (λ c. c == b'\\') p || is_among dot_dot (split p)
    then none
    else some (clean [] (split (b'/' ∷ p)))
