-- ===== src/Tests/Aging.antt =====
-- Tests of how long a file stays in the cache, with each text as its own hash.
use cmd.Prelude.{
  ℕ, ◌*◌, ◌+◌, ◌^◌, ◌≡◌, refl, arith, true, none, some, List, [], ◌∷◌, Bytes, codes, bytes_eq,
}
use cmd.Prelude.Io.{eof}
use cmd.Mote.Cache.{Cache, Disk, in_cache, put}
use cmd.Mote.Cache.Aging.Recent.{apply_all_recent}
use cmd.Mote.Cache.Aging.{
  Aged, Event, touched, saved, checked, removed, look_up, touch, check, remove, clean_cache,
  cmd_clean, apply, apply_all, cache_max_age,
}

abbrev itself : Bytes → Bytes
itself text = text

abbrev name : Bytes
name = codes "ab"

abbrev nothing : Cache
nothing hash = none

abbrev one : Cache
one = put name name nothing

abbrev old : Aged
old = record { cache = one; times = λ hash. 0; doomed = λ hash. 0 }

abbrev late : ℕ
late = 5 * 3600 * 10 ^ 9

abbrev disk : Disk
disk = record { makes = true; room = 9; closes = true; renames = true }

-- Another file is saved, and two runs of cleanCache overlap.
abbrev events : List Event
events =
    checked (late + 1) true name
    ∷ saved disk (late + 2) (codes "c") 1 (record { bytes = codes "c"; fin = eof })
    ∷ touched (late + 3) true (codes "c")
    ∷ checked (late + cache_max_age) true name
    ∷ removed true name
    ∷ removed true name
    ∷ []

held : one name ≡ some name
unfolding bytes_eq
held = refl

apply_all_recent_example :
    (kept : Bytes) × ((apply_all itself events (touch late true name old)).cache name ≡ some kept)
    × (itself kept ≡ name)
apply_all_recent_example =
    apply_all_recent itself late name name events old held refl refl
      (omega arith, (omega arith, (omega arith, (omega arith, (tt, (tt, tt))))))

-- What has not been used for longer is deleted, in the next nanosecond.
forgotten :
    (clean_cache (1 + cache_max_age) (λ f. true) (λ f. true) (name ∷ []) old).cache name ≡ none
unfolding clean_cache check remove bytes_eq
forgotten = refl

not_yet : (clean_cache cache_max_age (λ f. true) (λ f. true) (name ∷ []) old).cache name ≡ some name
unfolding clean_cache check remove bytes_eq
not_yet = refl

renewed_first :
    (clean_cache
        (1 + cache_max_age)
        (λ f. true)
        (λ f. true)
        (name ∷ [])
        (look_up 1 true name 2 old).1).cache
      name
    ≡ some name
unfolding clean_cache check remove look_up touch in_cache bytes_eq
renewed_first = refl

-- A run that has found the file too old removes it, also where it was renewed in between.
overtaken :
    (apply_all itself
        (checked (1 + cache_max_age) true name ∷ touched late true name ∷ removed true name ∷ [])
        old).cache
      name
    ≡ none
unfolding apply_all apply check touch remove bytes_eq
overtaken = refl

emptied : (cmd_clean (λ f. true) old).cache name ≡ none
unfolding cmd_clean
emptied = refl
