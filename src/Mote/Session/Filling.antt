-- ===== src/Mote/Session/Filling.antt =====
-- mote/client.go and mote/server.go: what the client uploads is what the server saves.
use mathlib.Core.Path.{subst}
use cmd.Prelude.{
  ℕ, ◌%◌, ◌^◌, ◌≤◌, ◌<◌, ◌≡◌, refl, sym, ap, ◌∙◌, inl, inr, true, false, Bool-cases, Option,
  Option-cases, none, some, List, [], ◌∷◌, ◌++◌, append_assoc, append-nil, arith, Bytes, bytes_eq,
  bytes_eq_iff, All, length, length-append, take-append, drop-append, take_all, ltb, ◌==◌, ==_iff,
  if◌then◌else◌, if_true, if_false,
}
use cmd.Prelude.Io.{IoError, Source}
use cmd.Mote.Cache.{Cache, Disk, SaveError, put, total, save_to_cache, save_all, receive}
use cmd.Mote.Session.{Listed, by_hash, total_size, upload_body}
use cmd.Mote.Session.Asking.{Matches}

-- A file that the client can read, with the size and the hash that it says.
abbrev pub IsHonest : (Bytes → Option Bytes) → (Bytes → Bytes) → Listed → Type 0
IsHonest contents sum f =
    (text : Bytes) × (contents f.path ≡ some text) × (length text ≡ f.size) × (sum text ≡ f.hash)

abbrev chosen_of : Bytes → Listed → Option Listed → Option Listed
chosen_of hash g o = elim o [
  | some f ↦ some f
  | none ↦ if bytes_eq g.hash hash then some g else none
]

pub by_hash_lem :
    (P : Listed → Type 0) (files : List Listed) (hash : Bytes) (f : Listed)
    → All P files
    → by_hash hash files ≡ some f
    → P f × (f.hash ≡ hash)
unfolding by_hash
by_hash_lem P [] hash f all h = cc
by_hash_lem P (g ∷ files) hash f (p, all) h = elim (Option-cases (by_hash hash files)) [
  | inr (f', e) ↦
      let same : some f' ≡ some f = sym (ap (chosen_of hash g) e) ∙ h in
      by_hash_lem P files hash f all (e ∙ same)
  | inl e ↦
      let h' : (if bytes_eq g.hash hash then some g else none) ≡ some f =
        sym (ap (chosen_of hash g) e) ∙ h in
      elim (Bool-cases (bytes_eq g.hash hash)) [
        | inl hit ↦
            let whole : some g ≡ some f = sym (if_true (some g) none hit) ∙ h' in
            let same : g ≡ f = cc in
            (subst P same p, ap (λ k. k.hash) (sym same) ∙ (bytes_eq_iff g.hash hash).0 hit)
        | inr miss ↦
            absurd (let gone : none ≡ some f = sym (if_false (some g) none miss) ∙ h' in cc)
      ]
]

no_bytes : (text : Bytes) → length text ≡ 0 → text ≡ []
no_bytes [] h = refl
no_bytes (c ∷ text) h = absurd (omega (arith, h))

body_cons :
    (contents : Bytes → Option Bytes) (f : Listed) (files : List Listed) (text : Bytes)
    → contents f.path ≡ some text
    → length text ≡ f.size
    → upload_body contents (f ∷ files) ≡ text ++ upload_body contents files
unfolding upload_body
body_cons contents f files text e size = elim (Bool-cases (f.size == 0)) [
  | inl empty ↦ rw empty (
      sym (
        ap (λ t. t ++ upload_body contents files)
          (no_bytes text (size ∙ (==_iff f.size 0).0 empty))))
  | inr full ↦ rw (full, e, take_all f.size text (omega arith)) refl
]

-- A disk on which everything works and which has room.
pub record IsWorking (disk : Disk) : Type 0 where
  pub makes : disk.makes ≡ true
  pub closes : disk.closes ≡ true
  pub renames : disk.renames ≡ true
  pub roomy : 2 ^ 32 ≤ disk.room

save_ok :
    (sum : Bytes → Bytes) (disk : Disk) (hash text rest : Bytes) (n : ℕ) (fin : IoError)
    (cache : Cache)
    → IsWorking disk
    → length text ≡ n
    → n < 2 ^ 32
    → sum text ≡ hash
    → save_to_cache sum disk hash n (record { bytes = text ++ rest; fin = fin }) cache
      ≡ (none, record { bytes = rest; fin = fin }, put hash text cache)
unfolding save_to_cache
save_ok sum disk hash text rest n fin cache works size small right =
    let front = take-append n text rest (sym size) in
    let back = drop-append n text rest (sym size) in
    let room : ltb disk.room (length text) ≡ false = ground (arith, works.roomy) in
    let whole : ltb (length text) n ≡ false = ground arith in
    let hashed : bytes_eq (sum text) hash ≡ true = (bytes_eq_iff (sum text) hash).1 right in
    rw (works.makes, front, back, room, whole, hashed, works.closes, works.renames, save_to_cache)
      refl

module _ (contents : Bytes → Option Bytes) (sum : Bytes → Bytes) (disks : Bytes → Disk)
    (sizes : Bytes → ℕ) (files : List Listed) (honest : All (IsHonest contents sum) files)
    (works : (hash : Bytes) → IsWorking (disks hash))
    (sized : (hash : Bytes) (f : Listed) → by_hash hash files ≡ some f → sizes hash ≡ f.size) where
  -- The body is as long as the files, and that is what the server expects.
  pub length-body :
      (need : List Bytes) (chosen : List Listed)
      → Matches files need chosen
      → (length (upload_body contents chosen) ≡ total_size chosen)
        × (total sizes need ≡ total_size chosen)
  unfolding total total_size upload_body
  length-body [] [] m = (refl, refl)
  length-body [] (f ∷ chosen) m = absurd m
  length-body (hash ∷ need) [] m = absurd m
  length-body (hash ∷ need) (f ∷ chosen) (e, m) =
      let ((text, read, size, right), same) =
        by_hash_lem (IsHonest contents sum) files hash f honest e in
      let (l, t) = length-body need chosen m in
      (
        ap length (body_cons contents f chosen text read size)
            ∙ length-append text (upload_body contents chosen)
            ∙ omega (arith, size, l),
        omega (arith, t, sized hash f e),
      )

  -- The loop of saves behind one.
  abbrev after_save :
      List Bytes → Option SaveError × Source × Cache → Option SaveError × Source × Cache
  after_save need o = elim o.0 [
    | some e ↦ (some e, o.1, o.2)
    | none ↦ save_all sum disks sizes need o.1 o.2
  ]

  -- All of it is saved.
  save_all_ok :
      (need : List Bytes) (chosen : List Listed) (rest : Bytes) (fin : IoError) (cache : Cache)
      → Matches files need chosen
      → total_size chosen < 2 ^ 32
      → (cache' : Cache) × (save_all sum disks sizes need
            (record { bytes = upload_body contents chosen ++ rest; fin = fin })
            cache
          ≡ (none, record { bytes = rest; fin = fin }, cache'))
  unfolding save_all upload_body total_size
  save_all_ok [] [] rest fin cache m small = (cache, refl)
  save_all_ok [] (f ∷ chosen) rest fin cache m small = absurd m
  save_all_ok (hash ∷ need) [] rest fin cache m small = absurd m
  save_all_ok (hash ∷ need) (f ∷ chosen) rest fin cache (e, m) small =
      let ((text, read, size, right), same) =
        by_hash_lem (IsHonest contents sum) files hash f honest e in
      let left = upload_body contents chosen ++ rest in
      let body : upload_body contents (f ∷ chosen) ++ rest ≡ text ++ left =
        ap (λ t. t ++ rest) (body_cons contents f chosen text read size)
        ∙ append_assoc text (upload_body contents chosen) rest in
      let n = sizes hash in
      let n_size : n ≡ f.size = sized hash f e in
      let saved =
        save_ok sum (disks hash) hash text left n fin cache (works hash) (size ∙ sym n_size)
          (omega (arith, n_size, small)) (right ∙ same) in
      let (cache', rest_saved) =
        save_all_ok need chosen rest fin (put hash text cache) m (omega (arith, small)) in
      (
        cache',
        ap (λ t. save_all sum disks sizes (hash ∷ need) (record { bytes = t; fin = fin }) cache)
              body
            ∙ ap (after_save need) saved
            ∙ rest_saved,
      )

  -- What the client uploads is received.
  pub receive_ok :
      (hash : Bytes) (need : List Bytes) (chosen : List Listed) (fin : IoError) (cache : Cache)
      → Matches files (hash ∷ need) chosen
      → total_size chosen < 2 ^ 32
      → (cache' : Cache) × (receive sum disks sizes
            (hash ∷ need)
            (total_size chosen)
            (record { bytes = upload_body contents chosen; fin = fin })
            cache
          ≡ (none, record { bytes = []; fin = fin }, cache'))
  unfolding receive
  receive_ok hash need chosen fin cache m small =
      let (l, t) = length-body (hash ∷ need) chosen m in
      let (cache', saved) = save_all_ok (hash ∷ need) chosen [] fin cache m small in
      let fits : (total_size chosen == total sizes (hash ∷ need) % 2 ^ 64) ≡ true =
        (==_iff _ _).1 (omega (arith, t, small)) in
      (
        cache',
        if_true _ _ fits
            ∙ (ap
                  (λ b.
                    save_all sum disks sizes (hash ∷ need) (record { bytes = b; fin = fin }) cache)
                  (sym (append-nil (upload_body contents chosen)))
                ∙ saved),
      )
