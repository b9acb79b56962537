-- ===== src/Mote/Cache/Aging.antt =====
-- mote/cache.go: the modification times of the cached files, which inCache renews, and what cleanCache
-- and cmdClean delete. Times are in nanoseconds. There is no lock: another session, or another
-- process, may act between any two system calls, so that each of them is an event of its own.
pub mod Recent
use mathlib.Core.Path.{subst}
use cmd.Prelude.{
  ℕ, zero, suc, ◌⊎◌, ◌==◌, ◌+◌, ◌*◌, ◌^◌, ◌≤◌, ◌≡◌, refl, sym, ap, ◌∙◌, inl, inr, Bool, true, false,
  ◌&&◌, Option, none, some, List, [], ◌∷◌, arith, All, Bytes, bytes_eq, bytes_eq_iff, take, ltb,
  if◌then◌else◌, if_true, if_false, Bool-cases, Option-cases,
}
use cmd.Prelude.Io.{Source}
use cmd.Mote.Cache.{Cache, Disk, SaveError, put, in_cache, save_to_cache}
use cmd.Mote.Cache.Saving.{Saved, save_to_cache-Saved}

abbrev pub cache_max_age : ℕ
cache_max_age = 3 * 3600 * 10 ^ 9

-- The files, their modification times, and for each name how many runs of cleanCache have found its file
-- too old and have not removed it yet.
pub record Aged : Type 0 where
  pub cache : Cache
  pub times : Bytes → ℕ
  pub doomed : Bytes → ℕ

abbrev pub assign : Bytes → ℕ → (Bytes → ℕ) → Bytes → ℕ
assign hash n f name = if bytes_eq name hash then n else f name

-- os.Chtimes in inCache, which fails where there is no file, or where it is not allowed.
unfoldable pub touch : ℕ → Bool → Bytes → Aged → Aged
touch now works hash s = elim (s.cache hash) [
  | none ↦ s
  | some text ↦ if works then record s { times = assign hash now s.times } else s
]

-- inCache, if nothing comes between its os.Stat and its os.Chtimes.
unfoldable pub look_up : ℕ → Bool → Bytes → ℕ → Aged → Bool × Aged
unfolding touch
look_up now works hash size s =
    if in_cache s.cache hash size then (true, touch now works hash s) else (false, s)

-- The rename in saveToCache: the file was last written at `written`, at the end of the copy.
abbrev pub renamed : ℕ → Bytes → Aged → Option SaveError × Source × Cache → Aged
renamed written hash s (some e, r, cache) = record s { cache = cache }
renamed written hash s (none, r, cache) = record s {
  cache = cache;
  times = assign hash written s.times;
}

-- The body of the loop of cleanCache, up to os.Remove: `began` is the time at its start, and `readable`
-- says whether Info succeeds.
unfoldable pub check : ℕ → Bool → Bytes → Aged → Aged
check began readable hash s = elim (s.cache hash) [
  | none ↦ s
  | some text ↦
      if readable && ltb (s.times hash + cache_max_age) began
      then record s { doomed = assign hash (suc (s.doomed hash)) s.doomed }
      else s
]

abbrev pub dropped : Bytes → Cache → Cache
dropped hash cache name = if bytes_eq name hash then none else cache name

-- os.Remove in cleanCache, by a run that found the file too old before.
unfoldable pub remove : Bool → Bytes → Aged → Aged
remove works hash s = elim (s.doomed hash) [
  | zero ↦ s
  | suc n ↦
      let s' = record s { doomed = assign hash n s.doomed } in
      if works then record s' { cache = dropped hash s.cache } else s'
]

-- cmdClean without arguments, whose RemoveAll may fail half way.
unfoldable pub cmd_clean : (Bytes → Bool) → Aged → Aged
cmd_clean removes s = record s { cache = λ name. if removes name then none else s.cache name }

-- A run of cleanCache on its own, over the names in the directories.
unfoldable pub clean_cache : ℕ → (Bytes → Bool) → (Bytes → Bool) → List Bytes → Aged → Aged
unfolding check remove
clean_cache began readable removes [] s = s
clean_cache began readable removes (name ∷ names) s =
    let found = s.doomed name in
    let s' = check began (readable name) name s in
    clean_cache began readable removes names
      (if s'.doomed name == found then s' else remove (removes name) name s')

-- What the sessions of any servers do to the cache, one system call at a time.
pub data Event : Type 0 where
  touched : ℕ → Bool → Bytes → Event
  saved : Disk → ℕ → Bytes → ℕ → Source → Event
  checked : ℕ → Bool → Bytes → Event
  removed : Bool → Bytes → Event

module _ (sum : Bytes → Bytes) where
  unfoldable pub apply : Event → Aged → Aged
  unfolding touch check remove
  apply (touched now works hash) s = touch now works hash s
  apply (saved disk written hash size r) s =
      renamed written hash s (save_to_cache sum disk hash size r s.cache)
  apply (checked began readable hash) s = check began readable hash s
  apply (removed works hash) s = remove works hash s

  unfoldable pub apply_all : List Event → Aged → Aged
  unfolding apply
  apply_all [] s = s
  apply_all (e ∷ events) s = apply_all events (apply e s)
