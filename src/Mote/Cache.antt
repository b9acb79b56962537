-- ===== src/Mote/Cache.antt =====
-- mote/cache.go, the server's cache of uploaded files by their hash, and the part of mote/server.go's
-- `serve` that fills it. The cache is what each hash names; a temporary file is under none.
pub mod Saving
pub mod Uploads
pub mod Names
pub mod Paths
pub mod Places
pub mod Aging
use cmd.Prelude.{
  ℕ, ◌+◌, ◌%◌, ◌^◌, ◌≡◌, Bool, true, false, not, ◌&&◌, ◌||◌, Option, none, some, List, [], ◌∷◌,
  ◌++◌, Bytes, bytes_eq, length, take, drop, ltb, leb, ◌==◌, if◌then◌else◌,
}
use cmd.Prelude.Io.{IoError, eof, unexpected_eof, deadline, other, Source}
use cmd.Prelude.Int.{ℤ, pos, negsuc}

abbrev pub Cache : Type 0
Cache = Bytes → Option Bytes

-- A file that a client lists in its Setup request, less its path.
pub record File : Type 0 where
  pub hash : Bytes
  pub size : ℤ

-- What the disk does: whether a directory and a temporary file can be made, how many bytes fit, and
-- whether closing and renaming succeed.
pub record Disk : Type 0 where
  pub makes : Bool
  pub room : ℕ
  pub closes : Bool
  pub renames : Bool

pub data SaveError : Type 0 where
  disk_failed wrong_hash wrong_size : SaveError
  read_failed : IoError → SaveError
  short_read : ℕ → SaveError

pub is_hex : ℕ → Bool
is_hex c = leb b'0' c && leb c b'9' || leb b'a' c && leb c b'f'

pub all_hex : Bytes → Bool
unfolding is_hex
all_hex [] = true
all_hex (c ∷ hash) = if is_hex c then all_hex hash else false

-- validHash
unfoldable pub valid_hash : Bytes → Bool
unfolding all_hex
valid_hash hash = if length hash == 64 then all_hex hash else false

-- inCache, for a size of at least 0
unfoldable pub in_cache : Cache → Bytes → ℕ → Bool
in_cache cache hash size = elim (cache hash) [ none ↦ false | some text ↦ length text == size ]

-- os.Rename of the temporary file to that of `hash`
abbrev pub put : Bytes → Bytes → Cache → Cache
put hash text cache name = if bytes_eq name hash then some text else cache name

-- Why a copy of fewer bytes than were asked for ended.
abbrev pub cut_short : ℕ → IoError → SaveError
cut_short n eof = short_read n
cut_short n e = read_failed e

-- How many bytes the files of `need` have together.
unfoldable pub total : (Bytes → ℕ) → List Bytes → ℕ
total sizes [] = 0
total sizes (hash ∷ need) = sizes hash + total sizes need

-- hex.EncodeToString(sha256) is `sum`.
module _ (sum : Bytes → Bytes) where
  -- saveToCache: the error, what is left to read, and the cache.
  unfoldable pub save_to_cache :
      Disk → Bytes → ℕ → Source → Cache → Option SaveError × Source × Cache
  save_to_cache disk hash size r cache =
      let text = take size r.bytes in
      let r' = record r { bytes = drop size r.bytes } in
      if not disk.makes
      then (some disk_failed, r, cache)
      else if ltb disk.room (length text)
      then (some disk_failed, r', cache)
      else if ltb (length text) size
      then (some (cut_short (length text) r.fin), r', cache)
      else if not (bytes_eq (sum text) hash)
      then (some wrong_hash, r', cache)
      else if not disk.closes || not disk.renames
      then (some disk_failed, r', cache)
      else (none, r', put hash text cache)

  -- The loop of `serve` over the hashes that it asked for.
  unfoldable pub save_all :
      (Bytes → Disk) → (Bytes → ℕ) → List Bytes → Source → Cache → Option SaveError × Source × Cache
  save_all disks sizes [] r cache = (none, r, cache)
  save_all disks sizes (hash ∷ need) r cache =
      let (failure, r', cache') = save_to_cache (disks hash) hash (sizes hash) r cache in
      let rest = save_all disks sizes need r' cache' in
      elim failure [ some e ↦ (some e, r', cache') | none ↦ rest ]

  -- The upload, if anything is needed: `size` is what its header says and `r` its body, which has no more
  -- than that. `want` is an int64, and wraps around where the sizes do not fit.
  unfoldable pub receive :
      (Bytes → Disk)
      → (Bytes → ℕ)
      → List Bytes
      → ℕ
      → Source
      → Cache
      → Option SaveError × Source × Cache
  receive disks sizes [] size r cache = (none, r, cache)
  receive disks sizes (hash ∷ need) size r cache =
      if size == total sizes (hash ∷ need) % 2 ^ 64
      then save_all disks sizes (hash ∷ need) r cache
      else (some wrong_size, r, cache)

unfoldable pub size_of : ℤ → ℕ
size_of (pos n) = n
size_of (negsuc n) = 0

-- The loop of `serve` that checks the files and sets `sizes`: none if one is malformed.
unfoldable pub sizes_of : List File → (Bytes → ℕ) → Option (Bytes → ℕ)
unfolding size_of valid_hash
sizes_of [] sizes = some sizes
sizes_of (f ∷ files) sizes =
    let rest =
      sizes_of files (λ name. if bytes_eq name f.hash then size_of f.size else sizes name) in
    if valid_hash f.hash then elim f.size [ pos n ↦ rest | negsuc n ↦ none ] else none

unfoldable pub is_seen : List Bytes → Bytes → Bool
is_seen [] hash = false
is_seen (name ∷ seen) hash = bytes_eq hash name || is_seen seen hash

-- The hashes to ask for, in order, each once.
unfoldable pub needed : Cache → List Bytes → List File → List Bytes
unfolding size_of is_seen
needed cache seen [] = []
needed cache seen (f ∷ files) =
    if is_seen seen f.hash || in_cache cache f.hash (size_of f.size)
    then needed cache seen files
    else f.hash ∷ needed cache (f.hash ∷ seen) files
