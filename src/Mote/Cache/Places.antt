-- ===== src/Mote/Cache/Places.antt =====
-- mote/cache.go: where the server puts the copies of the files of a request (copyFromCache, exeName), and
-- by which path the client knows the command (clientPath).
use cmd.Prelude.{
  ℕ, Bool, false, not, ◌||◌, ◌&&◌, Option, none, some, List, [], ◌∷◌, ◌++◌, map, Bytes, codes,
  bytes_eq, drop, leb, ◌==◌, ◌+◌, if◌then◌else◌,
}
use cmd.Prelude.Text.{has_prefix, contains_any}
use cmd.Mote.Cache.{Cache}
use cmd.Mote.Cache.Paths.{split, clean, is_nothing, dot, dot_dot, unwind}

-- A path below the temporary directory, by its names, with or without `.exe` behind it.
pub record Place : Type 0 where
  pub names : List Bytes
  pub exe : Bool

-- The copies, with the last one first.
abbrev pub Tree : Type 0
Tree = List (Place × Bytes)

-- copyFromCache, where `takes` says whether the directory is made and the copy is written.
unfoldable pub copy_from_cache : (Place → Bool) → Cache → Bytes → Place → Tree → Option Tree
copy_from_cache takes cache hash dst tree = elim (cache hash) [
  | none ↦ none
  | some text ↦ if takes dst then some ((dst, text) ∷ tree) else none
]

-- path.Clean of a path that is not rooted, on its names: what `..` does, and the loop.
unfoldable pub back : List Bytes → List Bytes
unfolding bytes_eq
back [] = dot_dot ∷ []
back (name ∷ stack) = if bytes_eq name dot_dot then dot_dot ∷ name ∷ stack else stack

unfoldable pub clean_relative : List Bytes → List Bytes → List Bytes
unfolding back is_nothing unwind bytes_eq
clean_relative stack [] = unwind stack []
clean_relative stack (name ∷ names) =
    let skipped = clean_relative stack names in
    let up = clean_relative (back stack) names in
    let down = clean_relative (name ∷ stack) names in
    if is_nothing name then skipped else if bytes_eq name dot_dot then up else down

unfoldable pub slashed : List Bytes → Bytes
slashed [] = []
slashed (name ∷ names) = b'/' ∷ name ++ slashed names

-- path.Clean
unfoldable pub clean_path : Bytes → Bytes
unfolding slashed clean_relative clean has_prefix split
clean_path p =
    if has_prefix p (codes "/")
    then elim (clean [] (split p)) [ [] ↦ codes "/" | name ∷ names ↦ slashed (name ∷ names) ]
    else elim (clean_relative [] (split p)) [
      | [] ↦ dot
      | name ∷ names ↦ drop 1 (slashed (name ∷ names))
    ]

-- path.Join of a directory and a path that is not empty
unfoldable pub join : Bytes → Bytes → Bytes
unfolding clean_path
join [] p = clean_path p
join (c ∷ dir) p = clean_path ((c ∷ dir) ++ b'/' ∷ p)

abbrev pub to_slash : ℕ → ℕ
to_slash c = if c == b'\\' then b'/' else c

abbrev pub has_volume : Bytes → Bool
has_volume (c ∷ d ∷ p) = d == b':'
has_volume p = false

-- clientPath
unfoldable pub client_path : Bytes → Bytes → Bytes
unfolding join has_prefix contains_any
client_path dir name =
    let p = map to_slash name in
    if has_prefix p (codes "/") || has_volume p
    then p
    else if not (contains_any (λ c. c == b'/') p)
    then []
    else join dir p

-- filepath.Ext of one name, and of the path that ends in the last of the names: the name of the temporary
-- directory has no dot.
unfoldable pub ext : Bytes → Bytes
ext [] = []
ext (c ∷ s) = let rest = ext s in elim rest [ [] ↦ if c == b'.' then c ∷ s else [] | d ∷ t ↦ d ∷ t ]

unfoldable pub last_ext : List Bytes → Bytes
unfolding ext
last_ext [] = []
last_ext (name ∷ []) = ext name
last_ext (name ∷ next ∷ names) = last_ext (next ∷ names)

abbrev pub to_lower : ℕ → ℕ
to_lower c = if leb b'A' c && leb c b'Z' then c + 32 else c

-- exeName, where `is_program` says that a file is a Windows binary and no library.
unfoldable pub exe_name : Bytes → (Bytes → Bool) → List Bytes → Option Bytes → Place
unfolding last_ext bytes_eq
exe_name goos is_program names src =
    if not (bytes_eq goos (codes "windows"))
      || bytes_eq (map to_lower (last_ext names)) (codes ".exe")
    then record { names = names; exe = false }
    else elim src [
      | none ↦ record { names = names; exe = false }
      | some text ↦ record { names = names; exe = is_program text }
    ]
