-- ===== src/Gofixerr/Edit.antt =====
-- gofixerr/edit.go: a queue of edits to apply to a text. A panic is an error of the result.
pub mod Order
pub mod Meaning
pub mod Queue
use cmd.Prelude.{
  ℕ, zero, suc, ◌+◌, ◌-◌, ◌≤◌, ◌≡◌, refl, Bool, true, false, ◌||◌, List, [], ◌∷◌, ◌++◌, Bytes,
  codes, All, length, take, drop, ltb, leb, ◌==◌, if◌then◌else◌, Result, ok, err, ◌>>=◌, not,
}
use cmd.Prelude.Int.{ℤ, pos, negsuc}

-- edit: replace the bytes in [start, end) by `new`.
pub record Edit : Type 0 where
  pub start : ℕ
  pub end : ℕ
  pub new : Bytes

pub record Buffer : Type 0 where
  pub old : Bytes
  pub q : List Edit

pub data Panic : Type 0 where
  invalid_position : Panic
  overlapping : Edit → Edit → Panic

unfoldable pub new_buffer : Bytes → Buffer
new_buffer text = record { old = text; q = [] }

-- edits.Less
pub less : Edit → Edit → Bool
less x y = if not (x.start == y.start) then ltb x.start y.start else ltb x.end y.end

-- append(b.q, e)
enqueue : Buffer → Edit → Buffer
enqueue b e = record b { q = b.q ++ e ∷ [] }

unfoldable pub insert : Buffer → ℤ → Bytes → Result Panic Buffer
unfolding enqueue
insert b (negsuc n) new = err invalid_position
insert b (pos p) new =
    if ltb (length b.old) p
    then err invalid_position
    else ok (enqueue b (record { start = p; end = p; new = new }))

unfoldable pub replace : Buffer → ℤ → ℤ → Bytes → Result Panic Buffer
unfolding enqueue
replace b (negsuc n) end new = err invalid_position
replace b (pos start) (negsuc n) new = err invalid_position
replace b (pos start) (pos end) new =
    if ltb end start || ltb (length b.old) end
    then err invalid_position
    else ok (enqueue b (record { start = start; end = end; new = new }))

unfoldable pub delete : Buffer → ℤ → ℤ → Result Panic Buffer
unfolding enqueue
delete b (negsuc n) end = err invalid_position
delete b (pos start) (negsuc n) = err invalid_position
delete b (pos start) (pos end) =
    if ltb end start || ltb (length b.old) end
    then err invalid_position
    else ok (enqueue b (record { start = start; end = end; new = [] }))

-- sort.Stable: an edit goes before the first one that is not less than it.
place : Edit → List Edit → List Edit
place e [] = e ∷ []
place e (x ∷ xs) = let rest = place e xs in if less x e then x ∷ rest else e ∷ x ∷ xs

unfoldable pub stable : List Edit → List Edit
unfolding place less
stable [] = []
stable (e ∷ es) = place e (stable es)

-- old[a:b]
abbrev pub slice : ℕ → ℕ → Bytes → Bytes
slice a b old = take (b - a) (drop a old)

-- The loop of `Bytes`: `prev` is the edit before, `b.q[i-1]`.
pub apply : Bytes → List Edit → Edit → ℕ → Bytes → Result Panic Bytes
apply old [] prev offset new = ok (new ++ drop offset old)
apply old (e ∷ es) prev offset new =
    let rest = apply old es e e.end ((new ++ slice offset e.start old) ++ e.new) in
    if ltb e.start offset then err (overlapping prev e) else rest

abbrev no_edit : Edit
no_edit = record { start = 0; end = 0; new = [] }

-- `Bytes`. It sorts the queue in place too, which the next call sees as a queue that is sorted.
unfoldable pub bytes : Buffer → Result Panic Bytes
unfolding apply stable
bytes b = apply b.old (stable b.q) no_edit 0 []

unfoldable pub sort_queue : Buffer → Buffer
unfolding stable
sort_queue b = record b { q = stable b.q }
