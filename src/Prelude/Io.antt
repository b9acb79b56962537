-- ===== src/Prelude/Io.antt =====
-- Readers and writers (package io), as far as the programs use them.
use Prim.Native.Nat.{ℕ, suc, ◌+◌, ◌-◌, ◌≤◌, ◌<◌}
use mathlib.Core.Path.{◌≡◌, refl}
use mathlib.Core.Bool.{Bool, true, false}
use mathlib.Core.List.{List, [], ◌∷◌, ◌++◌, append_assoc}
use mathlib.Core.Option.{Option, none, some}
use mathlib.Core.Logic.{◌⊎◌, inl, inr}
use native.Mathlib.Omega.{arith}
use cmd.Prelude.Tests.{leb, ◌==◌, if◌then◌else◌, le→leb, leb→le, not-leb→lt, Bool-cases}
use cmd.Prelude.Lists.{
  Bytes, length, take, drop, length-append, length-take, length-drop, take-append-drop, take-append,
  drop-append,
}
use cmd.Prelude.Results.{Result, ok, err}

-- Why a read or a write fails. `other` is any other error, by a number.
pub data IoError : Type 0 where
  eof unexpected_eof deadline : IoError
  other : ℕ → IoError

-- What a connection still has to deliver: its bytes, and the error of every read behind them.
pub record Source : Type 0 where
  pub bytes : Bytes
  pub fin : IoError

-- io.ReadFull reports an end of file in the middle as `io.ErrUnexpectedEOF`.
unfoldable pub short_read : Source → IoError
short_read s = elim s.fin [
  | eof ↦ if length s.bytes == 0 then eof else unexpected_eof
  | unexpected_eof ↦ unexpected_eof
  | deadline ↦ deadline
  | other e ↦ other e
]

-- io.ReadFull(r, make([]byte, n)); a failed read has consumed everything.
unfoldable pub read_full : ℕ → Source → Result IoError (Bytes × Source)
unfolding short_read
read_full n s =
    if leb n (length s.bytes)
    then ok (take n s.bytes, record s { bytes = drop n s.bytes })
    else err (short_read s)

-- Bytes that are there are read, and nothing behind them.
pub read_full-append :
    (n : ℕ) (xs ys : Bytes) (fin : IoError)
    → n ≡ length xs
    → read_full n (record { bytes = xs ++ ys; fin = fin })
      ≡ ok (xs, record { bytes = ys; fin = fin })
unfolding read_full
read_full-append n xs ys fin e = rw (
  le→leb n (length (xs ++ ys)) (omega (arith, length-append xs ys)),
  take-append n xs ys e,
  drop-append n xs ys e,
)

-- The other end of a connection: what it has taken, and how many bytes more it takes before a
-- write fails.
pub record Sink : Type 0 where
  pub out : Bytes
  pub room : ℕ

-- w.Write(p): the part that fits is written also when the write fails.
unfoldable pub write : Bytes → Sink → Bool × Sink
write p w =
    if leb (length p) w.room
    then (true, record { out = w.out ++ p; room = w.room - length p })
    else (false, record { out = w.out ++ take w.room p; room = 0 })

pub write_fits :
    (p : Bytes) (w : Sink)
    → length p ≤ w.room
    → write p w ≡ (true, record { out = w.out ++ p; room = w.room - length p })
unfolding write
write_fits p w h = rw (le→leb _ _ h)

pub write_cut :
    (p : Bytes) (w : Sink)
    → w.room < length p
    → write p w ≡ (false, record { out = w.out ++ take w.room p; room = 0 })
unfolding write
write_cut p w h = ground arith

-- A reader that shows how the bytes arrive: `Read` hands out one chunk at a time, as much of it as
-- the buffer holds. Behind the last chunk every read fails with `fin`.
pub record Stream : Type 0 where
  pub chunks : List Bytes
  pub fin : IoError

read_chunks : ℕ → List Bytes → IoError → Bytes × Option IoError × Stream
read_chunks n [] fin = ([], some fin, record { chunks = []; fin = fin })
read_chunks n (c ∷ cs) fin =
    if leb (length c) n
    then (c, none, record { chunks = cs; fin = fin })
    else (take n c, none, record { chunks = drop n c ∷ cs; fin = fin })

-- r.Read(buf[:n])
unfoldable pub read : ℕ → Stream → Bytes × Option IoError × Stream
unfolding read_chunks
read n s = read_chunks n s.chunks s.fin

-- The bytes that are still to come.
abbrev pub flatten : List Bytes → Bytes
flatten [] = []
flatten (c ∷ cs) = c ++ flatten cs

-- How many reads the stream can still serve, at most.
abbrev pub size : List Bytes → ℕ
size [] = 0
size (c ∷ cs) = suc (length c + size cs)

-- A read hands out the next bytes, or the final error when there are none.
pub record IsRead (n : ℕ) (s : Stream) (r : Bytes × Option IoError × Stream) : Type 0 where
  pub all : r.0 ++ flatten r.2.chunks ≡ flatten s.chunks
  pub bound : length r.0 ≤ n
  pub fin : r.2.fin ≡ s.fin
  pub outcome :
      ((r.1 ≡ none) × (size r.2.chunks < size s.chunks))
      ⊎ ((r.1 ≡ some s.fin) × (r.0 ≡ []) × (r.2.chunks ≡ []))

read_chunks-IsRead :
    (n : ℕ) (cs : List Bytes) (f : IoError)
    → 0 < n
    → IsRead n (record { chunks = cs; fin = f }) (read_chunks n cs f)
unfolding read_chunks
read_chunks-IsRead n [] f h = record {
  all = refl;
  bound = omega arith;
  fin = refl;
  outcome = inr (refl, refl, refl);
}
read_chunks-IsRead n (c ∷ cs) f h = elim (Bool-cases (leb (length c) n)) [
  | inl fits ↦
      rw fits record {
        all = refl;
        bound = leb→le _ _ fits;
        fin = refl;
        outcome = inl (refl, omega arith);
      }
  | inr cut ↦ rw cut record {
    all = rw (← append_assoc (take n c) (drop n c) (flatten cs), take-append-drop n c);
    bound = omega (arith, length-take n c);
    fin = refl;
    outcome = inl (refl, omega (arith, length-drop n c, not-leb→lt _ _ cut));
  }
]

pub read-IsRead : (n : ℕ) (s : Stream) → 0 < n → IsRead n s (read n s)
unfolding read
read-IsRead n s h = read_chunks-IsRead n s.chunks s.fin h
