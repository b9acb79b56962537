-- ===== src/Mote/Session/Asking.antt =====
-- mote/client.go and mote/server.go: the server asks for files that the client has.
use cmd.Prelude.{
  ℕ, ◌≡◌, refl, sym, ap, ◌∙◌, inl, inr, Bool, true, false, ◌||◌, Bool-cases, Option, Option-cases,
  none, some, List, [], ◌∷◌, map, arith, Bytes, bytes_eq, bytes_eq_iff, All, if◌then◌else◌, if_true,
  if_false, ok,
}
use cmd.Mote.Cache.{Cache, valid_hash, size_of, sizes_of, is_seen, in_cache, needed}
use cmd.Mote.Session.{Listed, by_hash, asked}
use cmd.Mote.Session.Serve.{cached}

bytes_eq_sym : (x y : Bytes) → bytes_eq x y ≡ bytes_eq y x
bytes_eq_sym x y = ground (arith, bytes_eq_iff x y, bytes_eq_iff y x)

-- The size that goes with a hash.
abbrev pub found_size : ℕ → Option Listed → ℕ
found_size n none = n
found_size n (some f) = f.size

pick :
    (b : Bool) (m : ℕ) (f : Listed)
    → (if b then f.size else m) ≡ found_size m (if b then some f else none)
pick true m f = refl
pick false m f = refl

abbrev sizes_with : Listed → (Bytes → ℕ) → Bytes → ℕ
sizes_with f sizes name = if bytes_eq name f.hash then f.size else sizes name

-- Of several sizes for a hash the last counts, on both sides.
pub sizes_of_lem :
    (files : List Listed) (start sizes : Bytes → ℕ) (hash : Bytes)
    → sizes_of (map cached files) start ≡ some sizes
    → sizes hash ≡ found_size (start hash) (by_hash hash files)
unfolding sizes_of by_hash size_of
sizes_of_lem [] start sizes hash h = let same : start ≡ sizes = cc in ap (λ f. f hash) (sym same)
sizes_of_lem (f ∷ files) start sizes hash h = elim (Bool-cases (valid_hash f.hash)) [
  | inr bad ↦ absurd (
      let bad_file : none ≡ some sizes =
        sym (if_false (sizes_of (map cached files) (sizes_with f start)) none bad) ∙ h in
      cc)
  | inl valid ↦
      let h' = sym (if_true (sizes_of (map cached files) (sizes_with f start)) none valid) ∙ h in
      let rest = sizes_of_lem files (sizes_with f start) sizes hash h' in
      elim (Option-cases (by_hash hash files)) [
        | inl e ↦ rw e (
            rest
            ∙ ap (found_size (sizes_with f start hash)) e
            ∙ ap (λ b. if b then f.size else start hash) (bytes_eq_sym hash f.hash)
            ∙ pick (bytes_eq f.hash hash) (start hash) f)
        | inr (g, e) ↦ rw e (rest ∙ ap (found_size (sizes_with f start hash)) e)
      ]
]

-- The client has a file with this hash.
abbrev pub Found : List Listed → Bytes → Type 0
Found files hash = (f : Listed) × (by_hash hash files ≡ some f)

Found-cons :
    (f : Listed) (files : List Listed) (hash : Bytes) → Found files hash → Found (f ∷ files) hash
unfolding by_hash
Found-cons f files hash (g, e) = (g, rw e refl)

Found-self : (f : Listed) (files : List Listed) → Found (f ∷ files) f.hash
unfolding by_hash
Found-self f files = elim (Option-cases (by_hash f.hash files)) [
  | inl e ↦ let same = (bytes_eq_iff f.hash f.hash).1 refl in (f, rw (e, same) refl)
  | inr (g, e) ↦ (g, rw e refl)
]

All-map :
    {P Q : Listed → Type 0} (files : List Listed)
    → ((f : Listed) → P f → Q f)
    → All P files
    → All Q files
All-map [] step all = tt
All-map (f ∷ files) step (p, all) = (step f p, All-map files step all)

pub All-Found : (files : List Listed) → All (λ f. Found files f.hash) files
All-Found [] = tt
All-Found (f ∷ files) =
    (Found-self f files, All-map files (λ g. Found-cons f files g.hash) (All-Found files))

-- What holds of every hash of the request holds of those that are needed.
pub needed-All :
    (P : Bytes → Type 0) (cache : Cache) (seen : List Bytes) (files : List Listed)
    → All (λ (f : Listed). P f.hash) files
    → All P (needed cache seen (map cached files))
unfolding needed
needed-All P cache seen [] all = tt
needed-All P cache seen (f ∷ files) (p, all) =
    elim (Bool-cases (is_seen seen f.hash || in_cache cache f.hash f.size)) [
      | inl skipped ↦ rw skipped (needed-All P cache seen files all)
      | inr new ↦ rw new (p, needed-All P cache (f.hash ∷ seen) files all)
    ]

-- The files that answer a request for hashes.
abbrev pub Matches : List Listed → List Bytes → List Listed → Type 0
Matches files [] [] = Unit
Matches files [] (f ∷ chosen) = ⊥
Matches files (hash ∷ need) [] = ⊥
Matches files (hash ∷ need) (f ∷ chosen) = (by_hash hash files ≡ some f) × Matches files need chosen

pub asked_lem :
    (files : List Listed) (need : List Bytes)
    → All (Found files) need
    → (chosen : List Listed) × (asked files need ≡ ok chosen) × Matches files need chosen
unfolding asked
asked_lem files [] all = ([], refl, tt)
asked_lem files (hash ∷ need) ((f, e), all) =
    let (chosen, e', m) = asked_lem files need all in (f ∷ chosen, rw (e, e', asked) refl, (e, m))
