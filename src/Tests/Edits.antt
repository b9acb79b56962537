-- ===== src/Tests/Edits.antt =====
-- Tests of the queue of edits.
use cmd.Prelude.{ℕ, ◌≡◌, ◌↔◌, arith, List, [], ◌∷◌, codes, ok}
use cmd.Prelude.Int.{pos}
use cmd.Gofixerr.Edit.{Edit, Buffer, stable, bytes, insert, replace, delete}
use cmd.Gofixerr.Edit.Order.{IsSorted, at_range, stable_lem}
use cmd.Gofixerr.Edit.Meaning.{IsDisjoint, splice_all, bytes_lem}
use cmd.Gofixerr.Edit.Queue.{Queued, queue_lem}

abbrev two_edits : List Edit
two_edits =
    record { start = 3; end = 5; new = codes "x" }
    ∷ record { start = 1; end = 1; new = codes "yz" }
    ∷ []

abbrev buffer : Buffer
buffer = record { old = codes "abcdef"; q = two_edits }

stable_lem_example :
    IsSorted (stable two_edits)
    × ((a b : ℕ) → at_range a b (stable two_edits) ≡ at_range a b two_edits)
stable_lem_example = stable_lem two_edits

bytes_lem_example : (bytes buffer ≡ ok (codes "ayzbcxf")) ↔ (
    IsDisjoint 0 (stable two_edits)
    × (codes "ayzbcxf" ≡ splice_all (stable two_edits) (codes "abcdef")))
bytes_lem_example =
    bytes_lem buffer (codes "ayzbcxf")
      ((omega arith, omega arith), ((omega arith, omega arith), tt))

queue_lem_example :
    Queued buffer (pos 2) (pos 7) (codes "x") (replace buffer (pos 2) (pos 7) (codes "x"))
    × Queued buffer (pos 2) (pos 7) [] (delete buffer (pos 2) (pos 7))
    × Queued buffer (pos 2) (pos 2) (codes "x") (insert buffer (pos 2) (codes "x"))
queue_lem_example = queue_lem buffer (pos 2) (pos 7) (codes "x")
