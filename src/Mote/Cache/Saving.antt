-- ===== src/Mote/Cache/Saving.antt =====
-- What `saveToCache` does to the cache.
use cmd.Prelude.{
  ℕ, ◌+◌, ◌≤◌, ◌≡◌, refl, sym, ap, ◌∙◌, inl, inr, Bool, true, false, not, ◌||◌, Option, none, some,
  arith, Bytes, bytes_eq, bytes_eq_iff, length, length-take, length-drop, take, drop, ltb,
  if◌then◌else◌, if_true, if_false, Bool-cases,
}
use cmd.Prelude.Io.{Source}
use cmd.Mote.Cache.{Cache, Disk, SaveError, put, save_to_cache}

not-false : (b : Bool) → not b ≡ false → b ≡ true
not-false true h = refl
not-false false h = cc

not-ltb→le : (a b : ℕ) → ltb a b ≡ false → b ≤ a
not-ltb→le a b h = ground arith

abbrev pub IsPresent : Cache → Bytes → Type 0
IsPresent cache hash = (text : Bytes) × (cache hash ≡ some text)

module _ (sum : Bytes → Bytes) where
  -- What the cache has under a hash has that hash.
  abbrev pub IsSound : Cache → Type 0
  IsSound cache = (hash text : Bytes) → cache hash ≡ some text → sum text ≡ hash

  -- How a save of `size` bytes ends: with an error and the cache as it was, or with the next `size`
  -- bytes, which have the hash, under it.
  abbrev pub Saved : Bytes → ℕ → Source → Cache → Option SaveError × Source × Cache → Type 0
  Saved hash size r cache (some e, r', cache') = cache' ≡ cache
  Saved hash size r cache (none, r', cache') =
      (cache' ≡ put hash (take size r.bytes) cache)
      × (sum (take size r.bytes) ≡ hash)
      × (length r.bytes ≡ size + length r'.bytes)
      × (r' ≡ record r { bytes = drop size r.bytes })

  Saved-if :
      (hash : Bytes) (size : ℕ) (r : Source) (cache : Cache) (b : Bool)
      (x y : Option SaveError × Source × Cache)
      → (b ≡ true → Saved hash size r cache x)
      → (b ≡ false → Saved hash size r cache y)
      → Saved hash size r cache (if b then x else y)
  Saved-if hash size r cache true x y f g = f refl
  Saved-if hash size r cache false x y f g = g refl

  -- `saveToCache` of any stream on any disk either fails and leaves the cache as it was, or puts the
  -- next `size` bytes under the hash, which is theirs, and takes exactly these.
  pub save_to_cache-Saved :
      (disk : Disk) (hash : Bytes) (size : ℕ) (r : Source) (cache : Cache)
      → Saved hash size r cache (save_to_cache sum disk hash size r cache)
  unfolding save_to_cache
  save_to_cache-Saved disk hash size r cache =
      let text = take size r.bytes in
      Saved-if hash size r cache (not disk.makes) _ _ (λ _. refl)
        (λ _.
          Saved-if hash size r cache (ltb disk.room (length text)) _ _ (λ _. refl)
            (λ _.
              Saved-if hash size r cache (ltb (length text) size) _ _ (λ _. refl)
                (λ long.
                  Saved-if hash size r cache (not (bytes_eq (sum text) hash)) _ _ (λ _. refl)
                    (λ same.
                      Saved-if hash size r cache (not disk.closes || not disk.renames) _ _
                        (λ _. refl)
                        (λ _. (
                          refl,
                          (bytes_eq_iff (sum text) hash).0 (not-false _ same),
                          omega (
                            arith,
                            not-ltb→le _ _ long,
                            length-take size r.bytes,
                            length-drop size r.bytes,
                          ),
                          refl,
                        ))))))

module _ (hash text : Bytes) (cache : Cache) where
  pub put-same : IsPresent (put hash text cache) hash
  put-same = (text, if_true _ _ ((bytes_eq_iff hash hash).1 refl))

  pub put-kept : (name : Bytes) → IsPresent cache name → IsPresent (put hash text cache) name
  put-kept name (old, h) = elim (Bool-cases (bytes_eq name hash)) [
    | inl e ↦ (text, if_true _ _ e)
    | inr e ↦ (old, if_false _ _ e ∙ h)
  ]

  pub put-IsSound :
      (sum : Bytes → Bytes)
      → sum text ≡ hash
      → IsSound sum cache
      → IsSound sum (put hash text cache)
  put-IsSound sum e sound name found h = elim (Bool-cases (bytes_eq name hash)) [
    | inl f ↦
        let put_text : some text ≡ some found = sym (if_true _ _ f) ∙ h in
        let same : text ≡ found = cc in ap sum (sym same) ∙ e ∙ sym ((bytes_eq_iff name hash).0 f)
    | inr f ↦ sound name found (sym (if_false _ _ f) ∙ h)
  ]
