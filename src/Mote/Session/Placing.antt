-- ===== src/Mote/Session/Placing.antt =====
-- mote/server.go, serve between the upload and Ready: the copies of the files of a request, and what the
-- command is.
use cmd.Prelude.{
  ◌≡◌, refl, ap, ◌∙◌, Bool, true, false, Option, none, some, List, [], ◌∷◌, All, Bytes, bytes_eq,
  if◌then◌else◌,
}
use cmd.Mote.Cache.{Cache}
use cmd.Mote.Cache.Paths.{remote_path}
use cmd.Mote.Cache.Places.{Place, Tree, copy_from_cache, client_path, exe_name}
use cmd.Mote.Session.{Listed, Request}

-- The server's file system: whether a temporary directory is made, a copy can be written, and a directory
-- made, and which files are Windows programs.
pub record System : Type 0 where
  pub goos : Bytes
  pub makes : Bool
  pub takes : Place → Bool
  pub takes_dir : List Bytes → Bool
  pub is_program : Bytes → Bool

-- What is executed: a name that the server looks up, or a copy.
pub data Command : Type 0 where
  named : Bytes → Command
  copied : Place → Command

pub record Placed : Type 0 where
  pub command : Command
  pub dir : List Bytes
  pub tree : Tree

-- The destination of one file.
unfoldable pub destination : System → Bytes → Cache → Listed → List Bytes → Place
unfolding exe_name bytes_eq
destination system cmd cache f names =
    if bytes_eq f.path cmd
    then exe_name system.goos system.is_program names (cache f.hash)
    else record { names = names; exe = false }

-- The loop over the files.
unfoldable pub place_files :
    System → Bytes → Cache → List Listed → Command → Tree → Option (Command × Tree)
unfolding destination copy_from_cache remote_path bytes_eq
place_files system cmd cache [] name tree = some (name, tree)
place_files system cmd cache (f ∷ files) name tree = elim (remote_path f.path) [
  | none ↦ none
  | some names ↦
      let dst = destination system cmd cache f names in
      elim (copy_from_cache system.takes cache f.hash dst tree) [
        | none ↦ none
        | some tree' ↦
            place_files system cmd cache files (if bytes_eq f.path cmd then copied dst else name)
              tree'
      ]
]

-- req.Args[0], where serve has checked that there is one.
abbrev pub first_arg : List Bytes → Bytes
first_arg [] = []
first_arg (arg ∷ args) = arg

abbrev pub in_dir : System → Option (List Bytes) → Option (Command × Tree) → Option Placed
in_dir system dir none = none
in_dir system none (some files) = none
in_dir system (some dir) (some (command, tree)) =
    if system.takes_dir dir
    then some (record { command = command; dir = dir; tree = tree })
    else none

unfoldable pub place_all : System → Request → Cache → Option Placed
unfolding place_files client_path remote_path
place_all system req cache =
    let name = first_arg req.args in
    if system.makes
    then in_dir system (remote_path req.dir)
        (place_files system (client_path req.dir name) cache req.files (named name) [])
    else none

-- A file system on which everything works.
pub record IsWritable (system : System) : Type 0 where
  pub makes : system.makes ≡ true
  pub takes : (dst : Place) → system.takes dst ≡ true
  pub takes_dir : (dir : List Bytes) → system.takes_dir dir ≡ true

abbrev pub IsPath : Bytes → Type 0
IsPath p = (names : List Bytes) × (remote_path p ≡ some names)

abbrev pub IsKept : Cache → Listed → Type 0
IsKept cache f = (text : Bytes) × (cache f.hash ≡ some text)

-- What is left of the loop behind the copy of one file, and behind its path.
abbrev behind_copy :
    System
    → Bytes
    → Cache
    → Listed
    → List Listed
    → Command
    → Place
    → Option Tree
    → Option (Command × Tree)
behind_copy system cmd cache f files name dst o = elim o [
  | none ↦ none
  | some tree' ↦
      place_files system cmd cache files (if bytes_eq f.path cmd then copied dst else name) tree'
]

abbrev at_path :
    System
    → Bytes
    → Cache
    → Listed
    → List Listed
    → Command
    → Tree
    → Option (List Bytes)
    → Option (Command × Tree)
at_path system cmd cache f files name tree o = elim o [
  | none ↦ none
  | some names ↦
      let dst = destination system cmd cache f names in
      behind_copy system cmd cache f files name dst
        (copy_from_cache system.takes cache f.hash dst tree)
]

place_files_lem :
    (system : System) (cmd : Bytes) (cache : Cache) (files : List Listed) (name : Command)
    (tree : Tree)
    → IsWritable system
    → All (λ (f : Listed). IsPath f.path) files
    → All (IsKept cache) files
    → (o : Command × Tree) × (place_files system cmd cache files name tree ≡ some o)
unfolding place_files copy_from_cache
place_files_lem system cmd cache [] name tree writable paths kept = ((name, tree), refl)
place_files_lem system cmd cache (f ∷ files) name tree writable ((names, path), paths)
      ((text, here), kept) =
    let dst = destination system cmd cache f names in
    let (o, rest) =
      place_files_lem system cmd cache files (if bytes_eq f.path cmd then copied dst else name)
        ((dst, text) ∷ tree) writable paths kept in
    let taken : copy_from_cache system.takes cache f.hash dst tree ≡ some ((dst, text) ∷ tree) =
      ap
        (λ src. elim src [
          | none ↦ none
          | some t ↦ if system.takes dst then some ((dst, t) ∷ tree) else none
        ])
        here
      ∙ ap (λ b. if b then some ((dst, text) ∷ tree) else none) (writable.takes dst) in
    (
      o,
      ap (at_path system cmd cache f files name tree) path
          ∙ ap (behind_copy system cmd cache f files name dst) taken
          ∙ rest,
    )

-- Where every file is in the cache and has a path that the server accepts, all are put in place.
pub place_all_lem :
    (system : System) (req : Request) (cache : Cache)
    → IsWritable system
    → IsPath req.dir
    → All (λ (f : Listed). IsPath f.path) req.files
    → All (IsKept cache) req.files
    → (placed : Placed) × (place_all system req cache ≡ some placed)
unfolding place_all
place_all_lem system req cache writable (dir, dir_path) paths kept =
    let name = first_arg req.args in
    let ((command, tree), done) =
      place_files_lem system (client_path req.dir name) cache req.files (named name) [] writable
        paths kept in
    (
      record { command = command; dir = dir; tree = tree },
      rw (writable.makes, done, dir_path, writable.takes_dir dir) refl,
    )
