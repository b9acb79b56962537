-- ===== src/Tests/Storage.antt =====
-- Tests of the cache, with each text as its own hash.
use cmd.Prelude.{
  some, refl, arith, ℕ, ◌≡◌, ◌↔◌, true, none, List, [], ◌∷◌, Bytes, All, codes, length,
}
use cmd.Prelude.Io.{eof, Source}
use cmd.Prelude.Int.{pos}
use cmd.Mote.Cache.{Cache, Disk, File, receive, needed, save_to_cache, valid_hash}
use cmd.Mote.Cache.Saving.{IsSound, Saved, save_to_cache-Saved}
use cmd.Mote.Cache.Uploads.{IsUploaded, upload_lem}
use cmd.Prelude.{bytes_eq}
use cmd.Prelude.Text.{contains_any}
use cmd.Mote.Cache.Paths.{
  push, split, is_among, unwind, pop, is_nothing, clean, strip_volume, remote_path,
}
use cmd.Mote.Cache.Paths.Below.{IsName, kept, remote_path-IsName}
use cmd.Mote.Cache.Names.{IsDigit, valid_hash_iff}

abbrev itself : Bytes → Bytes
itself text = text

abbrev disk : Disk
disk = record { makes = true; room = 100; closes = true; renames = true }

abbrev nothing : Cache
nothing hash = none

nothing-IsSound : IsSound itself nothing
nothing-IsSound hash text h = cc

abbrev files : List File
files = record { hash = codes "ab"; size = pos 2 } ∷ record { hash = codes "c"; size = pos 1 } ∷ []

abbrev sizes : Bytes → ℕ
sizes hash = length hash

abbrev body : Source
body = record { bytes = codes "abc"; fin = eof }

upload_lem_example :
    IsUploaded itself sizes files 3 body nothing
      (receive itself (λ _. disk) sizes (needed nothing [] files) 3 body nothing)
upload_lem_example =
    upload_lem itself (λ _. disk) sizes files 3 body nothing nothing-IsSound (omega arith)
      (omega arith)

save_to_cache-Saved_example :
    Saved itself (codes "ab") 2 body nothing (save_to_cache itself disk (codes "ab") 2 body nothing)
save_to_cache-Saved_example = save_to_cache-Saved itself disk (codes "ab") 2 body nothing

valid_hash_iff_example :
    (valid_hash (codes "0a../") ≡ true)
    ↔ ((length (codes "0a../") ≡ 64) × All IsDigit (codes "0a../"))
valid_hash_iff_example = valid_hash_iff (codes "0a../")

abbrev volume_path : Bytes
volume_path = codes "C:/a/.//b"

placed : remote_path volume_path ≡ some (codes "a" ∷ codes "b" ∷ [])
unfolding push split is_among unwind pop is_nothing clean strip_volume remote_path bytes_eq
    contains_any
placed = refl

escape : remote_path (codes "/a/../../b") ≡ none
unfolding push split is_among unwind pop is_nothing clean strip_volume remote_path bytes_eq
    contains_any
escape = refl

remote_path-IsName_example :
    All IsName (codes "a" ∷ codes "b" ∷ [])
    × (codes "a" ∷ codes "b" ∷ [] ≡ kept (split (strip_volume volume_path)))
remote_path-IsName_example = remote_path-IsName volume_path (codes "a" ∷ codes "b" ∷ []) placed
