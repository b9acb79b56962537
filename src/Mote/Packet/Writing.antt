-- ===== src/Mote/Packet/Writing.antt =====
-- What the writers of packets leave on the connection, also when a write fails.
use cmd.Prelude.{
  ℕ, ◌+◌, ◌-◌, ◌^◌, ◌≤◌, ◌<◌, ◌≡◌, refl, sym, ap, ◌∙◌, inl, inr, true, false, Option, none, some,
  [], ◌∷◌, ◌++◌, append_assoc, append-nil, arith, Bytes, length, length-append, take,
  take-append_le, take-append_ge, take_all, length-take, ltb, leb, le→leb, leb→le, not-leb→lt,
  lt→not-leb, lt→ltb, ltb→lt, tests, Option-cases, if◌then◌else◌, Bool-cases,
}
use cmd.Prelude.Io.{eof, Source, Sink, write, write_fits, write_cut}
use cmd.Prelude.Digits.{put_uint32}
use cmd.Prelude.Int.{ℤ, pos, negsuc}
use cmd.Mote.Packet.{
  PacketError, io, bad_json, write_failed, data_too_large, short_data_stream, data_stream_longer,
  Json, encode_json, header, write_section, write_packet_sections, copy_exactly, fits_uint32,
  write_packet, write_packet_stream,
}

abbrev pub frame : Bytes → Bytes → Bytes
frame enc payload = header (length enc) (length payload) ++ (enc ++ payload)

pub length-header : (m n : ℕ) → length (header m n) ≡ 8
unfolding header put_uint32
length-header m n = refl

-- The state of a connection after `p`, of which it takes what it has room for.
abbrev pub after : Bytes → Sink → Sink
after p w = record { out = w.out ++ take w.room p; room = w.room - length p }

abbrev sink : Bytes → ℕ → Sink
sink a n = record { out = a; room = n }

Sink-eq : {a b : Bytes} {m n : ℕ} → a ≡ b → m ≡ n → sink a m ≡ sink b n
Sink-eq p q = λ i. record { out = p i; room = q i }

write-after : (p : Bytes) (w : Sink) → write p w ≡ (leb (length p) w.room, after p w)
write-after p w = elim (Bool-cases (leb (length p) w.room)) [
  | inl fits ↦
      rw (write_fits p w (leb→le _ _ fits), fits)
        (ap (λ x. (true, x))
          (Sink-eq (ap (λ x. w.out ++ x) (sym (take_all w.room p (leb→le _ _ fits)))) refl))
  | inr cut ↦
      rw (write_cut p w (not-leb→lt _ _ cut), cut)
        (ap (λ x. (false, x)) (Sink-eq refl (omega (arith, not-leb→lt _ _ cut))))
]

section-after : (p : Bytes) (w : Sink) → write_section p w ≡ (leb (length p) w.room, after p w)
unfolding write_section
section-after [] w =
    rw (le→leb 0 w.room (omega arith), take_all {A = ℕ} w.room [] (omega arith))
      (ap (λ x. (true, x)) (Sink-eq (sym (append-nil w.out)) (omega arith)))
section-after (b ∷ p) w = write-after (b ∷ p) w

after-after : (p q : Bytes) (w : Sink) → length p ≤ w.room → after q (after p w) ≡ after (p ++ q) w
after-after p q w h =
    Sink-eq
      (rw (take_all w.room p h, take-append_ge w.room p q h)
        (append_assoc w.out p (take (w.room - length p) q)))
      (omega (arith, length-append p q))

after_cut : (p q : Bytes) (w : Sink) → w.room < length p → after (p ++ q) w ≡ after p w
after_cut p q w h =
    Sink-eq (ap (λ x. w.out ++ x) (take-append_le w.room p q (omega arith)))
      (omega (arith, length-append p q))

-- How one write of `p` ends.
abbrev pub outcome : Bytes → Sink → Option PacketError × Sink
outcome p w = (if leb (length p) w.room then none else some write_failed, after p w)

pub outcome_fits : (p : Bytes) (w : Sink) → length p ≤ w.room → outcome p w ≡ (none, after p w)
outcome_fits p w h = rw (le→leb _ _ h)

outcome_cut :
    (p : Bytes) (w : Sink) → w.room < length p → outcome p w ≡ (some write_failed, after p w)
outcome_cut p w h = rw (lt→not-leb _ _ h)

-- The three writes leave what one write of the whole would leave, and fail together with it.
sections_lem :
    (hdr enc payload : Bytes) (w : Sink)
    → write_packet_sections hdr enc payload w ≡ outcome (hdr ++ (enc ++ payload)) w
unfolding write_packet_sections
sections_lem hdr enc payload w =
    let all = length-append hdr (enc ++ payload) in
    let both = length-append enc payload in
    rw
      (
        write-after hdr w,
        section-after enc (after hdr w),
        section-after payload (after enc (after hdr w)),
        write_packet_sections,
      )
      (elim (Bool-cases (leb (length hdr) w.room)) [
        | inr cut ↦ rw cut (
            rw (outcome_cut (hdr ++ (enc ++ payload)) w (omega tests)) (
              ap (λ x. (some write_failed, x))
                (sym (after_cut hdr (enc ++ payload) w (omega tests)))))
        | inl fits ↦
            let rest = after-after hdr (enc ++ payload) w (omega tests) in
            rw fits (elim (Bool-cases (leb (length enc) (w.room - length hdr))) [
              | inr cut ↦ rw cut (
                  rw (outcome_cut (hdr ++ (enc ++ payload)) w (omega tests)) (
                    ap (λ x. (some write_failed, x))
                      (sym (after_cut enc payload (after hdr w) (omega tests)) ∙ rest)))
              | inl fits' ↦
                  let last = after-after enc payload (after hdr w) (omega tests) ∙ rest in
                  rw fits'
                    (elim (Bool-cases (leb (length payload) (w.room - length hdr - length enc))) [
                      | inr cut ↦ rw cut (
                          rw (outcome_cut (hdr ++ (enc ++ payload)) w (omega tests))
                            (ap (λ x. (some write_failed, x)) last))
                      | inl fits'' ↦ rw fits'' (
                          rw (outcome_fits (hdr ++ (enc ++ payload)) w (omega tests))
                            (ap (λ x. (none, x)) last))
                    ])
            ])
      ])

-- What is wrong with a stream that was to deliver `n` bytes.
abbrev pub stream_problem : ℕ → Source → Option PacketError
stream_problem n r =
    if ltb (length r.bytes) n
    then some (elim r.fin [ eof ↦ short_data_stream (length r.bytes) | e ↦ io e ])
    else if ltb n (length r.bytes)
    then some data_stream_longer
    else none

not-lt : (a b : ℕ) → b ≤ a → ltb a b ≡ false
not-lt a b h = ground arith

copy_lem :
    (n : ℕ) (r : Source) (w : Sink)
    → n ≤ w.room
    → copy_exactly n r w ≡ (stream_problem n r, after (take n r.bytes) w)
unfolding copy_exactly
copy_lem n r w h =
    let short = length-take n r.bytes in
    rw (write-after (take n r.bytes) w, le→leb (length (take n r.bytes)) w.room (omega arith))
      (elim (Bool-cases (leb n (length r.bytes))) [
        | inl enough ↦ rw (enough, not-lt (length r.bytes) n (leb→le _ _ enough)) (ground arith)
        | inr few ↦ rw (few, lt→ltb _ _ (not-leb→lt _ _ few)) refl
      ])

fits_uint32_lem : (n : ℕ) → fits_uint32 (pos n) ≡ (if ltb n (2 ^ 32) then some n else none)
unfolding fits_uint32
fits_uint32_lem n = ground arith

module _ {A : Type 0} (J : Json A) where
  -- writePacketStream where the JSON encodes as enc, on a connection that has room for the header, enc
  -- and n bytes if the size is an n < 2^32: such a size sends the header, enc and the first n bytes of the stream, and reports an error
  -- exactly if the stream does not hold n bytes: the stream's own, or that it is too short or too
  -- long. A larger or a negative size sends nothing.
  pub write_packet_stream_lem :
      (js : Option A) (size : ℤ) (r : Source) (w : Sink) (enc : Bytes)
      → encode_json J js ≡ some enc
      → ((n : ℕ) → size ≡ pos n → n < 2 ^ 32 → 8 + length enc + n ≤ w.room)
      → write_packet_stream J js size r w ≡ elim size [
        | negsuc n ↦ (some data_too_large, w)
        | pos n ↦
            if ltb n (2 ^ 32)
            then (stream_problem n r, after (header (length enc) n ++ (enc ++ take n r.bytes)) w)
            else (some data_too_large, w)
      ]
  unfolding write_packet_stream
  write_packet_stream_lem js (negsuc n) r w enc e h = rw (e, write_packet_stream)
  write_packet_stream_lem js (pos n) r w enc e h =
      rw (e, write_packet_stream)
        (elim (Bool-cases (ltb n (2 ^ 32))) [
          | inr big ↦ rw (fits_uint32_lem n, big) refl
          | inl small ↦
              let hdr = header (length enc) n in
              let enough = h n refl (ltb→lt n (2 ^ 32) small) in
              let nothing : Bytes = [] in
              let room = length-append hdr (enc ++ nothing) in
              let room' = length-header (length enc) n in
              let room'' = length-append enc nothing in
              let fits : length (hdr ++ (enc ++ nothing)) ≤ w.room = omega (arith, enough) in
              let sent =
                sections_lem hdr enc nothing w ∙ outcome_fits (hdr ++ (enc ++ nothing)) w fits in
              rw (fits_uint32_lem n, small, sent, sent)
                (copy_lem n r (after (hdr ++ (enc ++ nothing)) w) (omega (arith, enough))
                  ∙ ap (λ x. (stream_problem n r, x))
                      (after-after (hdr ++ (enc ++ nothing)) (take n r.bytes) w fits
                        ∙ ap (λ p. after p w)
                            (rw (append-nil enc) (append_assoc hdr enc (take n r.bytes)))))
        ])

  -- writePacket: where the JSON encodes as enc, the connection gets what it has room for of the
  -- packet's header, enc and data in a row, and there is no error exactly if that is all of it. Where
  -- the JSON does not encode, nothing is written.
  pub write_packet_lem :
      (js : Option A) (payload : Bytes) (w : Sink)
      → write_packet J js payload w ≡ elim (encode_json J js) [
        | none ↦ (some bad_json, w)
        | some enc ↦ outcome (frame enc payload) w
      ]
  unfolding write_packet
  write_packet_lem js payload w = elim (Option-cases (encode_json J js)) [
    | inl e ↦ rw (e, write_packet)
    | inr (enc, e) ↦
        rw (e, write_packet) (sections_lem (header (length enc) (length payload)) enc payload w)
  ]

  -- A packet that was written without an error is on the connection, and nothing else.
  pub written_frame :
      (js : Option A) (enc payload : Bytes) (room : ℕ) (w : Sink)
      → encode_json J js ≡ some enc
      → write_packet J js payload (record { out = []; room = room }) ≡ (none, w)
      → w.out ≡ frame enc payload
  written_frame js enc payload room w encoded written =
      let f = frame enc payload in
      let ends : outcome f (sink [] room) ≡ (none, w) =
        sym (rw encoded at (write_packet_lem js payload (sink [] room))) ∙ written in
      elim (Bool-cases (leb (length f) room)) [
        | inl fits ↦
            sym (ap (λ (x : Option PacketError × Sink). x.1.out) ends)
            ∙ take_all room f (leb→le _ _ fits)
        | inr cut ↦ cc (cut, ap (λ (x : Option PacketError × Sink). x.0) ends)
      ]
