-- ===== src/Gofixerr/Edit/Queue.antt =====
-- What the methods that queue an edit accept.
use cmd.Prelude.{
  ℕ, ◌≤◌, ◌≡◌, refl, inl, inr, ◌||◌, [], ◌∷◌, ◌++◌, arith, Bytes, length, ltb, if◌then◌else◌,
  Bool-cases, Result, ok, err,
}
use cmd.Prelude.Int.{ℤ, pos, negsuc}
use cmd.Gofixerr.Edit.{Buffer, Panic, invalid_position, enqueue, insert, replace, delete}

-- The text and the new edit of a buffer that was accepted, or the reason why it was not.
abbrev pub Queued : Buffer → ℤ → ℤ → Bytes → Result Panic Buffer → Type 0
Queued b start end new (ok b') =
    (s : ℕ) × (e : ℕ) × (start ≡ pos s)
    × (end ≡ pos e)
    × (s ≤ e)
    × (e ≤ length b.old)
    × (b' ≡ record b { q = b.q ++ record { start = s; end = e; new = new } ∷ [] })
Queued b start end new (err p) =
    (p ≡ invalid_position)
    × ((s e : ℕ) → start ≡ pos s → end ≡ pos e → s ≤ e → e ≤ length b.old → ⊥)

pos_injective : (m n : ℕ) → pos m ≡ pos n → m ≡ n
pos_injective m n h = cc

-- The two tests of `Delete` and `Replace`.
checked :
    (b : Buffer) (s e : ℕ) (new : Bytes)
    → Queued b (pos s) (pos e) new (
        if ltb e s || ltb (length b.old) e
        then err invalid_position
        else ok (enqueue b (record { start = s; end = e; new = new })))
unfolding enqueue
checked b s e new = elim (Bool-cases (ltb e s || ltb (length b.old) e)) [
  | inl bad ↦
      rw bad
        (refl, λ s' e' p q le le'. absurd (ground (arith, pos_injective s s', pos_injective e e')))
  | inr good ↦ rw good (s, e, refl, refl, ground arith, ground arith, refl)
]

replace-Queued :
    (b : Buffer) (start end : ℤ) (new : Bytes) → Queued b start end new (replace b start end new)
unfolding replace
replace-Queued b (negsuc n) end new = (refl, λ s e p q le le'. cc)
replace-Queued b (pos s) (negsuc n) new = (refl, λ s' e p q le le'. cc)
replace-Queued b (pos s) (pos e) new = checked b s e new

delete-Queued : (b : Buffer) (start end : ℤ) → Queued b start end [] (delete b start end)
unfolding delete
delete-Queued b (negsuc n) end = (refl, λ s e p q le le'. cc)
delete-Queued b (pos s) (negsuc n) = (refl, λ s' e p q le le'. cc)
delete-Queued b (pos s) (pos e) = checked b s e []

insert-Queued : (b : Buffer) (p : ℤ) (new : Bytes) → Queued b p p new (insert b p new)
unfolding insert enqueue
insert-Queued b (negsuc n) new = (refl, λ s e p q le le'. cc)
insert-Queued b (pos s) new = elim (Bool-cases (ltb (length b.old) s)) [
  | inl bad ↦
      rw bad
        (refl, λ s' e' p q le le'. absurd (ground (arith, pos_injective s s', pos_injective s e')))
  | inr good ↦ rw good (s, s, refl, refl, omega arith, ground arith, refl)
]

-- `Insert`, `Delete` and `Replace` queue their edit at the end if 0 <= start <= end <= len(old), and
-- panic otherwise, whatever the positions are.
pub queue_lem :
    (b : Buffer) (start end : ℤ) (new : Bytes)
    → Queued b start end new (replace b start end new)
      × Queued b start end [] (delete b start end)
      × Queued b start start new (insert b start new)
unfolding replace delete insert
queue_lem b start end new =
    (replace-Queued b start end new, delete-Queued b start end, insert-Queued b start new)
