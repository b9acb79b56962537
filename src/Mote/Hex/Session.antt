-- ===== src/Mote/Hex/Session.antt =====
-- A whole stream: what a caller that reads until an error gets of what `hexWriter` wrote.
use cmd.Prelude.{
  ℕ, zero, suc, ◌≤◌, ◌<◌, ◌≡◌, refl, sym, ap, ◌∙◌, inl, inr, Bool, Option, none, some, List, [],
  ◌∷◌, ◌++◌, append_assoc, append-nil, arith, Bytes, IsBytes, length, length-append, Bool-cases,
  Option-cases,
}
use cmd.Prelude.Io.{IoError, Stream, flatten}
use cmd.Prelude.Text.{is_newline}
use cmd.Mote.Hex.{
  HexError, io, HexReader, new_reader, Digest, done, bad, digest, accept, unhex, write_lines,
  hex_write, hex_read,
}
use cmd.Mote.Hex.Reading.{hex_read_total}
use cmd.Mote.Hex.RoundTrip.{hex_write_decodes}

-- Reads with buffers of `n` bytes until an error, and what they returned together.
pub read_all : ℕ → Bool → ℕ → HexReader → Stream → Option (Bytes × HexError)
read_all zero timed n h s = none
read_all (suc fuel) timed n h s = elim (hex_read timed n h s) [
  | none ↦ none
  | some r ↦ elim r.error [
    | some e ↦ some (r.out, e)
    | none ↦ elim (read_all fuel timed n r.reader r.stream) [
      | none ↦ none
      | some (more, e) ↦ some (r.out ++ more, e)
    ]
  ]
]

abbrev in_front : Bytes → Digest → Digest
in_front xs (done h out) = done h (xs ++ out)
in_front xs (bad h out rest) = bad h (xs ++ out) rest

accept_out :
    (v : ℕ) (h : HexReader) (out : Bytes)
    → ((accept v h out).0 ≡ (accept v h []).0) × ((accept v h out).1 ≡ out ++ (accept v h []).1)
unfolding accept
accept_out v h out = elim (Bool-cases h.odd) [
  | inl e ↦ rw e (refl, refl)
  | inr e ↦ rw e (refl, sym (append-nil out))
]

in_front-in_front :
    (xs ys : Bytes) (d : Digest) → in_front xs (in_front ys d) ≡ in_front (xs ++ ys) d
in_front-in_front xs ys (done h out) = ap (done h) (sym (append_assoc xs ys out))
in_front-in_front xs ys (bad h out rest) = ap (λ o. bad h o rest) (sym (append_assoc xs ys out))

-- What was decoded before stays in front.
digest-in_front :
    (raw : Bytes) (h : HexReader) (out : Bytes) → digest raw h out ≡ in_front out (digest raw h [])
unfolding digest
digest-in_front [] h out = ap (done h) (sym (append-nil out))
digest-in_front (c ∷ raw) h out = elim (Option-cases (unhex c)) [
  | inl e ↦
      rw (e, digest)
        (elim (Bool-cases (is_newline c)) [
          | inl n ↦ rw n (digest-in_front raw h out)
          | inr n ↦ rw n (ap (λ o. bad h o (c ∷ raw)) (sym (append-nil out)))
        ])
  | inr (v, e) ↦
      let (same, appended) = accept_out v h out in
      let h' = (accept v h []).0 in
      let out' = (accept v h []).1 in
      rw (e, digest)
        (rw (same, appended)
          (digest-in_front raw h' (out ++ out')
            ∙ sym (in_front-in_front out out' (digest raw h' []))
            ∙ ap (in_front out) (sym (digest-in_front raw h' out'))))
]

-- What is left of `all` behind `out`.
split_done :
    (out : Bytes) (d : Digest) (last : HexReader) (all : Bytes)
    → in_front out d ≡ done last all
    → (more : Bytes) × (d ≡ done last more) × (out ++ more ≡ all)
split_done out (done h more) last all e = (more, cc, cc)
split_done out (bad h more rest) last all e = cc

module _ (timed : Bool) (n : ℕ) (pos : 0 < n) (last : HexReader) (fin : IoError) where
  read_all_lem :
      (fuel : ℕ) (h : HexReader) (s : Stream) (all : Bytes)
      → length all < fuel
      → h.err ≡ none
      → s.fin ≡ fin
      → digest (flatten s.chunks) h [] ≡ done last all
      → read_all fuel timed n h s ≡ some (all, io fin)
  unfolding read_all
  read_all_lem zero h s all f ok sf e = absurd (omega arith)
  read_all_lem (suc fuel) h s all f ok sf e =
      let (r, returned, is) = hex_read_total timed n h s pos ok in
      elim is.outcome [
        | inl (no_error, some_out, rest, r_fin, r_ok) ↦
            let (more, left, parts) =
              split_done r.out _ last all
                (sym (digest-in_front (flatten r.stream.chunks) r.reader r.out) ∙ rest ∙ e) in
            let all_length = ap (λ (l : Bytes). length l) parts in
            let next =
              read_all_lem fuel r.reader r.stream more
                (omega (arith, length-append r.out more, all_length)) r_ok (r_fin ∙ sf) left in
            rw (returned, read_all) (rw (no_error, next, parts) refl)
        | inr (inl (ended, whole)) ↦ rw (returned, read_all) (rw ended (cc (whole ∙ e, sf)))
        | inr (inr (m, h', left, _, _, spoilt)) ↦ cc (spoilt, e)
      ]

-- Hex transport: what `Write` puts on a connection with room, cut into chunks in any way and read
-- with buffers of any size n > 0 by a reader that has deadlines or not, gives exactly the bytes
-- written, and then the connection's own error.
pub hex_round_trip :
    (p : Bytes) (cs : List Bytes) (fin : IoError) (timed : Bool) (n fuel room : ℕ)
    → IsBytes p
    → length (write_lines (length p) p []) ≤ room
    → flatten cs ≡ (hex_write p (record { out = []; room = room })).1.out
    → 0 < n
    → length p < fuel
    → read_all fuel timed n new_reader (record { chunks = cs; fin = fin }) ≡ some (p, io fin)
hex_round_trip p cs fin timed n fuel room bytes fits cut pos enough =
    let (wire, h, _, _, sent, decoded, _) =
      hex_write_decodes p (record { out = []; room = room }) bytes fits in
    read_all_lem timed n pos h fin fuel new_reader (record { chunks = cs; fin = fin }) p enough refl
      refl (rw (cut ∙ sent) decoded)
