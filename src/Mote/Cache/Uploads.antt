-- ===== src/Mote/Cache/Uploads.antt =====
-- What the upload at the start of a session does to the cache.
use mathlib.Core.Path.{subst}
use cmd.Prelude.{
  ℕ, ◌+◌, ◌<◌, ◌≤◌, ◌%◌, ◌^◌, ◌==◌, ==_iff, ◌≡◌, refl, sym, ◌⊎◌, inl, inr, Bool, true, false, ◌||◌,
  Option, none, some, Option-cases, List, [], ◌∷◌, arith, Bytes, All, bytes_eq_iff, length, take,
  if_true, if_false, Bool-cases,
}
use cmd.Prelude.Io.{Source}
use cmd.Mote.Cache.{
  Cache, Disk, File, SaveError, save_all, receive, total, size_of, is_seen, in_cache, needed,
}
use cmd.Mote.Cache.Saving.{
  IsPresent, IsSound, Saved, save_to_cache-Saved, put-same, put-kept, put-IsSound,
}

module _ (sum : Bytes → Bytes) (disks : Bytes → Disk) (sizes : Bytes → ℕ) where
  -- How saving the files of `need` ends.
  abbrev Filled : List Bytes → Source → Cache → Option SaveError × Source × Cache → Type 0
  Filled need r cache o =
      IsSound sum o.2
      × (o.0 ≡ none
          → All (IsPresent o.2) need
            × ((name : Bytes) → IsPresent cache name → IsPresent o.2 name)
            × (length r.bytes ≡ total sizes need + length o.1.bytes))

  save_all_step :
      (hash : Bytes) (need : List Bytes) (r : Source) (cache : Cache)
      (o : Option SaveError × Source × Cache)
      → IsSound sum cache
      → Saved sum hash (sizes hash) r cache o
      → ((r' : Source) (cache' : Cache)
          → IsSound sum cache'
          → Filled need r' cache' (save_all sum disks sizes need r' cache'))
      → Filled (hash ∷ need) r cache (elim o.0 as (λ _. Option SaveError × Source × Cache) [
        | some e ↦ (some e, o.1, o.2)
        | none ↦ save_all sum disks sizes need o.1 o.2
      ])
  unfolding total
  save_all_step hash need r cache (some e, r', cache') sound unchanged rest =
      (subst (IsSound sum) (sym unchanged) sound, λ h. cc)
  save_all_step hash need r cache (none, r', cache') sound (changed, right, exact, _) rest =
      let text = take (sizes hash) r.bytes in
      let sound' =
        subst (IsSound sum) (sym changed) (put-IsSound hash text cache sum right sound) in
      let (sound'', filled) = rest r' cache' sound' in
      let present = subst (λ c. IsPresent c hash) (sym changed) (put-same hash text cache) in
      (
        sound'',
        λ h.
            let (all, kept, size) = filled h in
            (
              (kept hash present, all),
              (λ name found. kept name (
                  subst (λ c. IsPresent c name) (sym changed)
                    (put-kept hash text cache name found))),
              omega (arith, exact, size),
            ),
      )

  save_all_lem :
      (need : List Bytes) (r : Source) (cache : Cache)
      → IsSound sum cache
      → Filled need r cache (save_all sum disks sizes need r cache)
  unfolding save_all total
  save_all_lem [] r cache sound = (sound, λ h. (tt, (λ name found. found), omega arith))
  save_all_lem (hash ∷ need) r cache sound =
      save_all_step hash need r cache _ sound
        (save_to_cache-Saved sum (disks hash) hash (sizes hash) r cache)
        (λ r' cache' sound'. save_all_lem need r' cache' sound')

pub in_cache-IsPresent :
    (cache : Cache) (hash : Bytes) (size : ℕ)
    → in_cache cache hash size ≡ true
    → IsPresent cache hash
unfolding in_cache
in_cache-IsPresent cache hash size h = elim (Option-cases (cache hash)) [
  | inl e ↦ let r : in_cache cache hash size ≡ false = rw (e, in_cache) refl in cc
  | inr found ↦ found
]

or_cases : (a b : Bool) → (a || b) ≡ true → (a ≡ true) ⊎ (b ≡ true)
or_cases true b h = inl refl
or_cases false b h = inr h

-- What holds of all that is needed, and of what is seen or in the cache already, holds of every file.
module _ (P : Bytes → Type 0) (cache : Cache)
    (held : (hash : Bytes) → IsPresent cache hash → P hash) where
  needed_lem :
      (seen : List Bytes) (files : List File)
      → ((hash : Bytes) → is_seen seen hash ≡ true → P hash)
      → All P (needed cache seen files)
      → All (λ (f : File). P f.hash) files
  unfolding needed is_seen
  needed_lem seen [] before all = tt
  needed_lem seen (f ∷ files) before all =
      let found = is_seen seen f.hash || in_cache cache f.hash (size_of f.size) in
      elim (Bool-cases found) [
        | inl e ↦
            let all' = subst (All P) (if_true _ _ e) all in
            (
              (elim (or_cases _ _ e) [
                | inl s ↦ before f.hash s
                | inr c ↦ held f.hash (in_cache-IsPresent cache f.hash _ c)
              ]),
              needed_lem seen files before all',
            )
        | inr e ↦
            let (here, all') = subst (All P) (if_false _ _ e) all in
            (
              here,
              needed_lem (f.hash ∷ seen) files
                  (λ hash s. elim (or_cases _ _ s) [
                    | inl same ↦ subst P (sym ((bytes_eq_iff hash f.hash).0 same)) here
                    | inr s' ↦ before hash s'
                  ])
                  all',
            )
      ]

-- How the part of `serve` that needs the files of `need` ends.
abbrev Received :
    (Bytes → Bytes)
    → (Bytes → ℕ)
    → List Bytes
    → ℕ
    → Source
    → Cache
    → Option SaveError × Source × Cache
    → Type 0
Received sum sizes need size r cache o =
    IsSound sum o.2
    × (o.0 ≡ none
        → All (IsPresent o.2) need
          × ((name : Bytes) → IsPresent cache name → IsPresent o.2 name)
          × ((need ≡ [])
              ⊎ ((length o.1.bytes ≡ 0) × (length r.bytes ≡ size) × (total sizes need ≡ size))))

not_seen : {P : Type 0} (hash : Bytes) → is_seen [] hash ≡ true → P
unfolding is_seen
not_seen hash h = cc

-- How an upload ends.
abbrev pub IsUploaded :
    (Bytes → Bytes)
    → (Bytes → ℕ)
    → List File
    → ℕ
    → Source
    → Cache
    → Option SaveError × Source × Cache
    → Type 0
IsUploaded sum sizes files size r cache o =
    IsSound sum o.2
    × (o.0 ≡ none
        → All (λ (f : File). (text : Bytes) × (o.2 f.hash ≡ some text) × (sum text ≡ f.hash)) files
          × ((needed cache [] files ≡ [])
              ⊎ ((length o.1.bytes ≡ 0)
                  × (length r.bytes ≡ size)
                  × (total sizes (needed cache [] files) ≡ size))))

receive_lem :
    (sum : Bytes → Bytes) (disks : Bytes → Disk) (sizes : Bytes → ℕ) (need : List Bytes) (size : ℕ)
    (r : Source) (cache : Cache)
    → IsSound sum cache
    → length r.bytes ≤ size
    → size < 2 ^ 32
    → Received sum sizes need size r cache (receive sum disks sizes need size r cache)
unfolding receive
receive_lem sum disks sizes [] size r cache sound limited small =
    (sound, λ h. (tt, (λ name found. found), inl refl))
receive_lem sum disks sizes (hash ∷ need) size r cache sound limited small =
    let all_need = hash ∷ need in
    elim (Bool-cases (size == total sizes all_need % 2 ^ 64)) [
      | inr e ↦
          subst (Received sum sizes all_need size r cache) (sym (if_false _ _ e)) (sound, λ h. cc)
      | inl e ↦
          let (sound', filled) = save_all_lem sum disks sizes all_need r cache sound in
          let same = (==_iff _ _).0 e in
          subst (Received sum sizes all_need size r cache) (sym (if_true _ _ e)) (
            sound',
            λ h.
                let (all, kept, exact) = filled h in
                (all, kept, inr (omega arith, omega arith, omega arith)),
          )
    ]

right :
    (sum : Bytes → Bytes) (cache : Cache)
    → IsSound sum cache
    → (files : List File) → All (λ (f : File). IsPresent cache f.hash) files
    → All (λ (f : File). (text : Bytes) × (cache f.hash ≡ some text) × (sum text ≡ f.hash)) files
right sum cache sound [] all = tt
right sum cache sound (f ∷ files) ((text, found), all) =
    ((text, found, sound f.hash text found), right sum cache sound files all)

-- Whatever a client uploads and whatever the disk does, a cache whose files have the hashes they are
-- under stays so. If the upload succeeds, every file that the client listed is in the cache with the
-- right hash, and where any was needed, the body has been read to its end and had the size that the
-- header said and that the files have together, also where `want` wrapped around.
pub upload_lem :
    (sum : Bytes → Bytes) (disks : Bytes → Disk) (sizes : Bytes → ℕ) (files : List File) (size : ℕ)
    (r : Source) (cache : Cache)
    → IsSound sum cache
    → length r.bytes ≤ size
    → size < 2 ^ 32
    → IsUploaded sum sizes files size r cache
        (receive sum disks sizes (needed cache [] files) size r cache)
upload_lem sum disks sizes files size r cache sound limited small =
    let (sound', filled) =
      receive_lem sum disks sizes (needed cache [] files) size r cache sound limited small in
    (
      sound',
      λ h.
          let (all, kept, read) = filled h in
          let present =
            needed_lem (IsPresent _) cache kept [] files (λ hash seen. not_seen hash seen) all in
          (right sum _ sound' files present, read),
    )
