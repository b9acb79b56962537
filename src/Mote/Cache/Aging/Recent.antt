-- ===== src/Mote/Cache/Aging/Recent.antt =====
-- mote/cache.go: whether a recently used file stays in the cache.
use mathlib.Core.Path.{subst}
use cmd.Prelude.{
  ℕ, zero, suc, ◌⊎◌, ◌+◌, ◌≤◌, ◌≡◌, refl, sym, ap, ◌∙◌, inl, inr, Bool, true, false, ◌&&◌, Option,
  none, some, List, [], ◌∷◌, arith, All, Bytes, bytes_eq, bytes_eq_iff, take, ltb, if_true,
  if_false, Bool-cases, Option-cases,
}
use cmd.Prelude.Io.{Source}
use cmd.Mote.Cache.{Cache, SaveError, put}
use cmd.Mote.Cache.Saving.{Saved, save_to_cache-Saved}
use cmd.Mote.Cache.Aging.{
  cache_max_age, Aged, assign, touch, renamed, check, remove, Event, touched, saved, checked,
  removed, apply, apply_all,
}

module _ (sum : Bytes → Bytes) where
  -- A file is cached with its hash, was used at `start` or later, and nobody is about to remove it.
  pub record IsFresh (start : ℕ) (hash : Bytes) (s : Aged) : Type 0 where
    pub used : start ≤ s.times hash
    pub present : (text : Bytes) × (s.cache hash ≡ some text) × (sum text ≡ hash)
    pub safe : s.doomed hash ≡ 0

  assign_le :
      (start now : ℕ) (hash name : Bytes) (times : Bytes → ℕ)
      → start ≤ now
      → start ≤ times hash
      → start ≤ assign name now times hash
  assign_le start now hash name times h k = elim (Bool-cases (bytes_eq hash name)) [
    | inl e ↦ rw e h
    | inr e ↦ rw e k
  ]

  touch-IsFresh :
      (start now : ℕ) (hash name : Bytes) (works : Bool) (s : Aged)
      → start ≤ now
      → IsFresh start hash s
      → IsFresh start hash (touch now works name s)
  unfolding touch
  touch-IsFresh start now hash name works s h f = elim (Option-cases (s.cache name)) [
    | inl e ↦ rw (e, touch) f
    | inr (text, e) ↦ elim (Bool-cases works) [
      | inr w ↦ rw (e, w, touch) f
      | inl w ↦
          rw (e, w, touch)
            (record {
              used = assign_le start now hash name s.times h f.used;
              present = f.present;
              safe = f.safe;
            })
    ]
  ]

  put-cases :
      (hash name text found : Bytes) (cache : Cache)
      → cache hash ≡ some found
      → sum found ≡ hash
      → sum text ≡ name
      → (kept : Bytes) × (put name text cache hash ≡ some kept) × (sum kept ≡ hash)
  put-cases hash name text found cache here right new = elim (Bool-cases (bytes_eq hash name)) [
    | inl e ↦ (text, if_true _ _ e, new ∙ sym ((bytes_eq_iff hash name).0 e))
    | inr e ↦ (found, if_false _ _ e ∙ here, right)
  ]

  abbrev IsKept : Bytes → Cache → Type 0
  IsKept hash c = (text : Bytes) × (c hash ≡ some text) × (sum text ≡ hash)

  renamed-IsFresh :
      (start written : ℕ) (hash name : Bytes) (size : ℕ) (r : Source) (s : Aged)
      (o : Option SaveError × Source × Cache)
      → start ≤ written
      → IsFresh start hash s
      → Saved sum name size r s.cache o
      → IsFresh start hash (renamed written name s o)
  renamed-IsFresh start written hash name size r s (some e, r', cache) h f same = record {
    used = f.used;
    present = subst (IsKept hash) (sym same) f.present;
    safe = f.safe;
  }
  renamed-IsFresh start written hash name size r s (none, r', cache) h f (same, new, _, _) =
      let (text, here, right) = f.present in
      record {
        used = assign_le start written hash name s.times h f.used;
        present =
            subst (IsKept hash) (sym same)
              (put-cases hash name (take size r.bytes) text s.cache here right new);
        safe = f.safe;
      }

  assign_other :
      (hash name : Bytes) (n : ℕ) (f : Bytes → ℕ)
      → bytes_eq hash name ≡ false
      → assign name n f hash ≡ f hash
  assign_other hash name n f e = if_false _ _ e

  young :
      (start began : ℕ) (hash : Bytes) (readable : Bool) (s : Aged)
      → began ≤ start + cache_max_age
      → start ≤ s.times hash
      → (readable && ltb (s.times hash + cache_max_age) began) ≡ false
  young start began hash readable s h k = ground (arith, h, k)

  check-IsFresh :
      (start began : ℕ) (hash name : Bytes) (readable : Bool) (s : Aged)
      → began ≤ start + cache_max_age
      → IsFresh start hash s
      → IsFresh start hash (check began readable name s)
  unfolding check
  check-IsFresh start began hash name readable s h f = elim (Bool-cases (bytes_eq hash name)) [
    | inl e ↦
        let same = (bytes_eq_iff hash name).0 e in
        let (text, here, _) = f.present in
        let calm : check began readable hash s ≡ s =
          rw (here, young start began hash readable s h f.used, check) refl in
        subst (λ t. IsFresh start hash (check began readable t s)) same
          (subst (IsFresh start hash) (sym calm) f)
    | inr e ↦ elim (Option-cases (s.cache name)) [
      | inl gone ↦ rw (gone, check) f
      | inr (text, here) ↦
          elim (Bool-cases (readable && ltb (s.times name + cache_max_age) began)) [
            | inr recent ↦ rw (here, recent, check) f
            | inl old ↦
                rw (here, old, check)
                  (record {
                    used = f.used;
                    present = f.present;
                    safe = assign_other hash name (suc (s.doomed name)) s.doomed e ∙ f.safe;
                  })
          ]
    ]
  ]

  ℕ-cases : (n : ℕ) → (n ≡ 0) ⊎ ((m : ℕ) × (n ≡ suc m))
  ℕ-cases zero = inl refl
  ℕ-cases (suc m) = inr (m, refl)

  remove-IsFresh :
      (start : ℕ) (hash name : Bytes) (works : Bool) (s : Aged)
      → IsFresh start hash s
      → IsFresh start hash (remove works name s)
  unfolding remove
  remove-IsFresh start hash name works s f = elim (ℕ-cases (s.doomed name)) [
    | inl none_found ↦ rw (none_found, remove) f
    | inr (n, some_found) ↦
        let differs : bytes_eq hash name ≡ false = elim (Bool-cases (bytes_eq hash name)) [
          | inr e ↦ e
          | inl e ↦
              let same = ap s.doomed ((bytes_eq_iff hash name).0 e) in
              absurd (omega (arith, same, some_found, f.safe))
        ] in
        let safe = assign_other hash name n s.doomed differs ∙ f.safe in
        elim (Bool-cases works) [
          | inr w ↦
              rw (some_found, w, remove)
                (record { used = f.used; present = f.present; safe = safe })
          | inl w ↦
              let (text, here, right) = f.present in
              rw (some_found, w, remove)
                (record {
                  used = f.used;
                  present = (text, if_false none (s.cache hash) differs ∙ here, right);
                  safe = safe;
                })
        ]
  ]

  -- What happens within the age from `start` on: times are renewed, and saved files were written, not
  -- before it, and cleanings began not later than its end.
  abbrev pub IsWithin : ℕ → Event → Type 0
  IsWithin start (touched now works hash) = start ≤ now
  IsWithin start (saved disk written hash size r) = start ≤ written
  IsWithin start (checked began readable hash) = began ≤ start + cache_max_age
  IsWithin start (removed works hash) = Unit

  apply-IsFresh :
      (start : ℕ) (hash : Bytes) (e : Event) (s : Aged)
      → IsWithin start e
      → IsFresh start hash s
      → IsFresh start hash (apply sum e s)
  unfolding apply
  apply-IsFresh start hash (touched now works name) s h f =
      touch-IsFresh start now hash name works s h f
  apply-IsFresh start hash (saved disk written name size r) s h f =
      renamed-IsFresh start written hash name size r s _ h f
        (save_to_cache-Saved sum disk name size r s.cache)
  apply-IsFresh start hash (checked began readable name) s h f =
      check-IsFresh start began hash name readable s h f
  apply-IsFresh start hash (removed works name) s h f = remove-IsFresh start hash name works s f

  apply_all-IsFresh :
      (start : ℕ) (hash : Bytes) (events : List Event) (s : Aged)
      → All (IsWithin start) events
      → IsFresh start hash s
      → IsFresh start hash (apply_all sum events s)
  unfolding apply_all
  apply_all-IsFresh start hash [] s all f = f
  apply_all-IsFresh start hash (e ∷ events) s (h, all) f =
      apply_all-IsFresh start hash events (apply sum e s) all (apply-IsFresh start hash e s h f)

  -- A file that is cached under its hash when inCache renews its modification time, and that no run of
  -- cleanCache has found too old and is still to remove, is cached with its hash after any interleaving
  -- of renewals, renames of saved files, checks and removals in the three hours that follow: of saves
  -- whose last write was in them, and of cleanings that began before they were over.
  pub apply_all_recent :
      (now : ℕ) (hash text : Bytes) (events : List Event) (s : Aged)
      → s.cache hash ≡ some text
      → sum text ≡ hash
      → s.doomed hash ≡ 0
      → All (IsWithin now) events
      → (kept : Bytes) × ((apply_all sum events (touch now true hash s)).cache hash ≡ some kept)
        × (sum kept ≡ hash)
  unfolding touch
  apply_all_recent now hash text events s here right safe all =
      let s' : Aged = record s { times = assign hash now s.times } in
      let looked : touch now true hash s ≡ s' = rw (here, touch) refl in
      let renewal : assign hash now s.times hash ≡ now =
        if_true _ _ ((bytes_eq_iff hash hash).1 refl) in
      let fresh : IsFresh now hash s' = record {
        used = omega (arith, renewal);
        present = (text, here, right);
        safe = safe;
      } in
      subst (λ (t : Aged). IsKept hash (apply_all sum events t).cache) (sym looked)
        (apply_all-IsFresh now hash events s' all fresh).present
