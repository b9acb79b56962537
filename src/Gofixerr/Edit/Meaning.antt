-- ===== src/Gofixerr/Edit/Meaning.antt =====
-- What `Bytes` returns: the text with the edits made one by one, the last first.
use cmd.Prelude.{
  ℕ, zero, suc, ◌-◌, ◌≤◌, ◌≡◌, refl, sym, ap, ◌∙◌, ◌↔◌, inl, inr, false, List, [], ◌∷◌, ◌++◌,
  append_assoc, arith, Bytes, All, length, take, drop, take_all, length-take, take-append_le, ltb,
  Bool-cases, ok,
}
use cmd.Gofixerr.Edit.{Edit, Buffer, less, place, stable, slice, apply, no_edit, bytes}

-- One edit of a text.
abbrev pub splice : Edit → Bytes → Bytes
splice e text = take e.start text ++ (e.new ++ drop e.end text)

-- The last edit is made first, so that the positions of the others stay true.
pub splice_all : List Edit → Bytes → Bytes
splice_all [] text = text
splice_all (e ∷ es) text = splice e (splice_all es text)

-- An edit of a text of `n` bytes.
abbrev pub Within : ℕ → Edit → Type 0
Within n e = (e.start ≤ e.end) × (e.end ≤ n)

-- Every edit starts where the one before it ends, or later; the first at `offset` or later.
abbrev pub IsDisjoint : ℕ → List Edit → Type 0
IsDisjoint offset [] = Unit
IsDisjoint offset (e ∷ es) = (offset ≤ e.start) × IsDisjoint e.end es

drop-take : {A : Type 0} (a b : ℕ) (xs : List A) → take (b - a) (drop a xs) ≡ drop a (take b xs)
drop-take zero b xs = let e : b - 0 ≡ b = omega arith in rw e
drop-take (suc a) zero xs = let e : 0 - suc a ≡ 0 = omega arith in rw e
drop-take (suc a) (suc b) [] = take_all (suc b - suc a) [] (omega arith)
drop-take (suc a) (suc b) (x ∷ xs) =
    let e : suc b - suc a ≡ b - a = omega arith in rw e (drop-take a b xs)

drop-append_le :
    {A : Type 0} (n : ℕ) (xs ys : List A) → n ≤ length xs → drop n (xs ++ ys) ≡ drop n xs ++ ys
drop-append_le zero xs ys h = refl
drop-append_le (suc n) [] ys h = absurd (omega arith)
drop-append_le (suc n) (x ∷ xs) ys h = drop-append_le n xs ys (omega arith)

take-take : {A : Type 0} (m n : ℕ) (xs : List A) → m ≤ n → take m (take n xs) ≡ take m xs
take-take zero n xs h = refl
take-take (suc m) zero xs h = absurd (omega arith)
take-take (suc m) (suc n) [] h = refl
take-take (suc m) (suc n) (x ∷ xs) h = ap (λ r. x ∷ r) (take-take m n xs (omega arith))

not-lt : (a b : ℕ) → b ≤ a → ltb a b ≡ false
not-lt a b h = ground arith

module _ (old : Bytes) where
  -- A text that agrees with the old one up to `k` has `k` bytes.
  agree_length :
      (k : ℕ) (text : Bytes) → k ≤ length old → take k text ≡ take k old → k ≤ length text
  agree_length k text h e =
      omega (arith, ap (λ (l : Bytes). length l) e, length-take k text, length-take k old)

  agree_below :
      (j k : ℕ) (text : Bytes) → j ≤ k → take k text ≡ take k old → take j text ≡ take j old
  agree_below j k text h e = sym (take-take j k text h) ∙ ap (take j) e ∙ take-take j k old h

  -- Edits from `k` on leave the first `k` bytes alone.
  take-splice_all :
      (k : ℕ) (es : List Edit)
      → k ≤ length old
      → All (Within (length old)) es
      → IsDisjoint k es
      → take k (splice_all es old) ≡ take k old
  unfolding splice_all
  take-splice_all k [] h w d = refl
  take-splice_all k (e ∷ es) h ((w1, w2), w) (d1, d) =
      let rest = take-splice_all e.end es w2 w d in
      let text = splice_all es old in
      let long = agree_length e.end text w2 rest in
      take-append_le k (take e.start text) (e.new ++ drop e.end text)
        (omega (arith, length-take e.start text))
      ∙ take-take k e.start text d1
      ∙ agree_below k e.end text (omega arith) rest

  pieces :
      (e : Edit) (es : List Edit) (offset : ℕ) (new : Bytes)
      → offset ≤ length old
      → e.start ≤ e.end
      → e.end ≤ length old
      → All (Within (length old)) es
      → IsDisjoint e.end es
      → offset ≤ e.start
      → ((new ++ slice offset e.start old) ++ e.new) ++ drop e.end (splice_all es old)
        ≡ new ++ drop offset (splice_all (e ∷ es) old)
  unfolding splice_all
  pieces e es offset new h w1 w2 w d d1 =
      let rest = take-splice_all e.end es w2 w d in
      let text = splice_all es old in
      let long = agree_length e.end text w2 rest in
      let same = agree_below e.start e.end text w1 rest in
      let tail = e.new ++ drop e.end text in
      rw
        (
          drop-append_le offset (take e.start text) tail (omega (arith, length-take e.start text)),
          drop-take offset e.start old,
          same,
          append_assoc (new ++ drop offset (take e.start old)) e.new (drop e.end text),
          append_assoc new (drop offset (take e.start old)) tail,
        )
        refl

  apply_lem :
      (es : List Edit) (prev : Edit) (offset : ℕ) (new : Bytes)
      → offset ≤ length old
      → All (Within (length old)) es
      → IsDisjoint offset es
      → apply old es prev offset new ≡ ok (new ++ drop offset (splice_all es old))
  unfolding apply
  apply_lem [] prev offset new h w d = unfold splice_all in refl
  apply_lem (e ∷ es) prev offset new h ((w1, w2), w) (d1, d) =
      let head = new ++ slice offset e.start old in
      rw (not-lt e.start offset d1, apply)
        (apply_lem es e e.end (head ++ e.new) w2 w d
          ∙ ap ok (pieces e es offset new (omega arith) w1 w2 w d d1))

  -- The loop fails exactly where an edit starts before the end of the one before it.
  apply_overlap :
      (es : List Edit) (prev : Edit) (offset : ℕ) (new : Bytes) {out : Bytes}
      → apply old es prev offset new ≡ ok out
      → IsDisjoint offset es
  unfolding apply
  apply_overlap [] prev offset new h = tt
  apply_overlap (e ∷ es) prev offset new h = elim (Bool-cases (ltb e.start offset)) [
    | inl bad ↦ absurd (ground arith)
    | inr good ↦ (ground arith, apply_overlap es e e.end _ (rw (good, apply) at h))
  ]

-- Every queued edit lies in the text.
abbrev pub IsValid : Buffer → Type 0
IsValid b = All (Within (length b.old)) b.q

place-Within :
    (n : ℕ) (e : Edit) (es : List Edit)
    → Within n e
    → All (Within n) es
    → All (Within n) (place e es)
unfolding place
place-Within n e [] h k = (h, tt)
place-Within n e (x ∷ es) h (p, k) = elim (Bool-cases (less x e)) [
  | inl t ↦ rw t (p, place-Within n e es h k)
  | inr t ↦ rw t (h, (p, k))
]

stable-Within : (n : ℕ) (es : List Edit) → All (Within n) es → All (Within n) (stable es)
unfolding stable
stable-Within n [] h = tt
stable-Within n (e ∷ es) (p, h) = place-Within n e (stable es) p (stable-Within n es h)

-- `Bytes` of a buffer whose edits lie in the text returns without a panic exactly if no two of them
-- overlap, and then returns the text with the edits made one by one, from the last to the first in
-- the stable order.
pub bytes_lem :
    (b : Buffer) (out : Bytes)
    → IsValid b
    → (bytes b ≡ ok out) ↔ (IsDisjoint 0 (stable b.q) × (out ≡ splice_all (stable b.q) b.old))
unfolding bytes
bytes_lem b out v =
    let made = λ (d : IsDisjoint 0 (stable b.q)).
      apply_lem b.old (stable b.q) no_edit 0 [] (omega arith) (stable-Within (length b.old) b.q v)
        d in
    (
      (λ h. let d = apply_overlap b.old (stable b.q) no_edit 0 [] h in (d, cc (h, made d))),
      (λ (d, e). made d ∙ ap ok (sym e)),
    )
