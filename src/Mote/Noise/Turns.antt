-- ===== src/Mote/Noise/Turns.antt =====
-- Whose turn it is, and what an error does to a handshake.
use cmd.Prelude.{
  ℕ, ◌+◌, ◌-◌, ◌≤◌, ◌<◌, ◌≡◌, refl, ◌∙◌, ◌⊎◌, inl, inr, true, false, ◌||◌, not, Option, none, some,
  List, [], ◌∷◌, ◌++◌, arith, Bytes, All, length, take, drop, ltb, ◌==◌, if_true, if_false,
  Bool-cases, Option-cases, Result, ok, err, Result-cases,
}
use cmd.Mote.Noise.{
  Crypto, NoiseError, CipherState, SymmetricState, HandshakeState, Outcome, write_message,
  read_message, mix_dh, mix_pub, encrypt_and_hash, decrypt_and_hash, begin, finish, write_with,
  read_with, or_fresh, equal, already_failed,
}

-- A call of a handshake: `WriteMessage` of a payload, with the key that would be generated, or
-- `ReadMessage` of a message.
pub data Call : Type 0 where
  write : Option Bytes → Bytes → Call
  read : Bytes → Call

-- The initiator writes the first message and reads the second, the responder the other way round.
abbrev pub HasTurn : HandshakeState → Call → Type 0
HasTurn hs (write fresh payload) = (hs.initiator ≡ (hs.msg == 0)) × (hs.msg ≤ 1)
HasTurn hs (read message) = (hs.initiator ≡ not (hs.msg == 0)) × (hs.msg ≤ 1)

module _ (C : Crypto) where
  pub call : HandshakeState → Call → Outcome C
  call hs (write fresh payload) = write_message C fresh hs payload
  call hs (read message) = read_message C hs message

  -- A call that succeeds was made in turn on a handshake that had not failed, and counts one message
  -- more; it gives the ciphers exactly with the second. A call that does not succeed leaves the
  -- handshake failed.
  abbrev pub Follows : HandshakeState → Call → Outcome C → Type 0
  Follows hs c (ok (out, ciphers), hs') =
      HasTurn hs c
      × (hs.failed ≡ false)
      × (hs'.failed ≡ false)
      × (hs'.initiator ≡ hs.initiator)
      × (hs'.msg ≡ hs.msg + 1)
      × ((hs'.msg ≡ 2) ⊎ (ciphers ≡ none))
  Follows hs c (err e, hs') = hs'.failed ≡ true

  finish_lem :
      (out : Bytes) (ss : SymmetricState) (hs hs0 : HandshakeState) (c : Call)
      → HasTurn hs0 c
      → hs0.failed ≡ false
      → hs.failed ≡ false
      → hs.initiator ≡ hs0.initiator
      → hs.msg ≡ hs0.msg
      → Follows hs0 c (finish C out ss hs)
  unfolding finish
  finish_lem out ss hs hs0 c turn alive alive' same count = elim (Bool-cases (hs.msg + 1 == 2)) [
    | inl last ↦ rw last (turn, alive, alive', same, omega arith, inl (ground arith))
    | inr more ↦ rw more (turn, alive, alive', same, omega arith, inr refl)
  ]

  module _ (hs0 : HandshakeState) (c : Call) (turn : HasTurn hs0 c)
      (alive : hs0.failed ≡ false) where
    write_with_lem :
        (e payload : Bytes) (hs : HandshakeState)
        → hs.failed ≡ false
        → hs.initiator ≡ hs0.initiator
        → hs.msg ≡ hs0.msg
        → Follows hs0 c (write_with C e payload hs)
    unfolding write_with
    write_with_lem e payload hs alive' same count =
        let pubkey = C.public_key e in
        let hs1 = record hs { e = some e; ss = mix_pub C hs.ss pubkey } in
        elim (Result-cases (mix_dh C hs1)) [
          | inr (x, f) ↦ rw (f, write_with) refl
          | inl (ss, f) ↦ elim (Result-cases (encrypt_and_hash C ss payload)) [
            | inr (x, g) ↦ rw (f, write_with) (rw g refl)
            | inl ((ct, ss'), g) ↦
                rw (f, write_with)
                  (rw g (finish_lem (pubkey ++ ct) ss' hs1 hs0 c turn alive alive' same count))
          ]
        ]

    read_with_lem :
        (pubkey rest : Bytes) (hs : HandshakeState)
        → hs.failed ≡ false
        → hs.initiator ≡ hs0.initiator
        → hs.msg ≡ hs0.msg
        → Follows hs0 c (read_with C pubkey rest hs)
    unfolding read_with
    read_with_lem pubkey rest hs alive' same count = elim (Option-cases (C.new_public_key pubkey)) [
      | inl n ↦ rw (n, read_with) refl
      | inr (re, n) ↦
          let hs1 = record hs { re = some re; ss = mix_pub C hs.ss pubkey } in
          elim (Result-cases (mix_dh C hs1)) [
            | inr (x, f) ↦ rw (n, read_with) (rw f refl)
            | inl (ss, f) ↦ elim (Result-cases (decrypt_and_hash C ss rest)) [
              | inr (x, g) ↦ rw (n, read_with) (rw f (rw g refl))
              | inl ((pt, ss'), g) ↦
                  rw (n, read_with)
                    (rw f (rw g (finish_lem pt ss' hs1 hs0 c turn alive alive' same count)))
            ]
          ]
    ]

  begin_lem :
      (hs : HandshakeState)
      → ((begin C hs).failed ≡ hs.failed)
        × ((begin C hs).initiator ≡ hs.initiator)
        × ((begin C hs).msg ≡ hs.msg)
  unfolding begin
  begin_lem hs = elim (Bool-cases (hs.msg == 0)) [
    | inl first ↦ rw first (refl, refl, refl)
    | inr second ↦ rw second (refl, refl, refl)
  ]

  turn_write :
      (hs : HandshakeState) (fresh : Option Bytes) (payload : Bytes)
      → (not (equal hs.initiator (hs.msg == 0)) || ltb 1 hs.msg) ≡ false
      → HasTurn hs (write fresh payload)
  unfolding equal
  turn_write hs fresh payload h = ground arith

  turn_read :
      (hs : HandshakeState) (message : Bytes)
      → (equal hs.initiator (hs.msg == 0) || ltb 1 hs.msg) ≡ false
      → HasTurn hs (read message)
  unfolding equal
  turn_read hs message h = ground arith

  write_eq :
      (hs : HandshakeState) (fresh : Option Bytes) (e payload : Bytes)
      → hs.failed ≡ false
      → (not (equal hs.initiator (hs.msg == 0)) || ltb 1 hs.msg) ≡ false
      → or_fresh C hs.fixed_e fresh ≡ some e
      → write_message C fresh hs payload ≡ write_with C e payload (begin C hs)
  unfolding write_message
  write_eq hs fresh e payload alive turn n = if_false _ _ alive ∙ if_false _ _ turn ∙ rw n

  read_eq :
      (hs : HandshakeState) (message : Bytes)
      → hs.failed ≡ false
      → (equal hs.initiator (hs.msg == 0) || ltb 1 hs.msg) ≡ false
      → ltb (length message) 32 ≡ false
      → read_message C hs message ≡ read_with C (take 32 message) (drop 32 message) (begin C hs)
  unfolding read_message
  read_eq hs message alive turn long = if_false _ _ alive ∙ if_false _ _ turn ∙ if_false _ _ long

  dead_eq :
      (hs : HandshakeState) (c : Call) → hs.failed ≡ true → call hs c ≡ (err already_failed, hs)
  unfolding call write_message read_message
  dead_eq hs (write fresh payload) dead = if_true _ _ dead
  dead_eq hs (read message) dead = if_true _ _ dead

  call-Follows : (hs : HandshakeState) (c : Call) → Follows hs c (call hs c)
  unfolding call
  call-Follows hs (write fresh payload) = elim (Bool-cases hs.failed) [
    | inl dead ↦ unfold write_message in rw (dead, write_message) refl
    | inr alive ↦ elim (Bool-cases (not (equal hs.initiator (hs.msg == 0)) || ltb 1 hs.msg)) [
      | inl out ↦ unfold write_message in rw (alive, write_message) (rw out refl)
      | inr turn ↦
          let (f, i, m) = begin_lem hs in
          elim (Option-cases (or_fresh C hs.fixed_e fresh)) [
            | inl n ↦ unfold write_message in rw (alive, write_message) (rw turn (rw n refl))
            | inr (e, n) ↦ rw (write_eq hs fresh e payload alive turn n) (
                write_with_lem hs (write fresh payload) (turn_write hs fresh payload turn) alive e
                  payload (begin C hs) (f ∙ alive) i m)
          ]
    ]
  ]
  call-Follows hs (read message) = elim (Bool-cases hs.failed) [
    | inl dead ↦ unfold read_message in rw (dead, read_message) refl
    | inr alive ↦ elim (Bool-cases (equal hs.initiator (hs.msg == 0) || ltb 1 hs.msg)) [
      | inl out ↦ unfold read_message in rw (alive, read_message) (rw out refl)
      | inr turn ↦
          let (f, i, m) = begin_lem hs in
          elim (Bool-cases (ltb (length message) 32)) [
            | inl short ↦ unfold read_message in rw (alive, read_message) (rw turn (rw short refl))
            | inr long ↦ rw (read_eq hs message alive turn long) (
                read_with_lem hs (read message) (turn_read hs message turn) alive (take 32 message)
                  (drop 32 message) (begin C hs) (f ∙ alive) i m)
          ]
    ]
  ]

  -- The calls of a program one after the other.
  pub run :
      HandshakeState
      → List Call
      → List (Result NoiseError (Bytes × Option (CipherState × CipherState)))
  run hs [] = []
  run hs (c ∷ cs) = (call hs c).0 ∷ run (call hs c).1 cs

  abbrev pub Failed : Result NoiseError (Bytes × Option (CipherState × CipherState)) → Type 0
  Failed (ok r) = ⊥
  Failed (err e) = Unit

  -- At most `left` calls succeed, all of them before the first that fails, and only the last of
  -- `left` successes gives ciphers.
  abbrev pub Succeeds :
      ℕ → List (Result NoiseError (Bytes × Option (CipherState × CipherState))) → Type 0
  Succeeds left [] = Unit
  Succeeds left (err e ∷ rs) = All Failed rs
  Succeeds left (ok (out, ciphers) ∷ rs) =
      (0 < left) × ((left ≡ 1) ⊎ (ciphers ≡ none)) × Succeeds (left - 1) rs

  run_dead : (hs : HandshakeState) (cs : List Call) → hs.failed ≡ true → All Failed (run hs cs)
  unfolding run
  run_dead hs [] dead = tt
  run_dead hs (c ∷ cs) dead = rw (dead_eq hs c dead) (tt, run_dead hs cs dead)

  HasTurn-le : (hs : HandshakeState) (c : Call) → HasTurn hs c → hs.msg ≤ 1
  HasTurn-le hs (write fresh payload) (_, h) = h
  HasTurn-le hs (read message) (_, h) = h

  after_call :
      (hs : HandshakeState) (c : Call) (o : Outcome C) (cs : List Call)
      → Follows hs c o
      → (o.1.msg ≤ 2 → Succeeds (2 - o.1.msg) (run o.1 cs))
      → Succeeds (2 - hs.msg) (o.0 ∷ run o.1 cs)
  after_call hs c (err e, hs') cs dead ih = run_dead hs' cs dead
  after_call hs c (ok (out, ciphers), hs') cs (turn, alive, alive', same, count, two) ih =
      let le = HasTurn-le hs c turn in
      let less : 2 - hs'.msg ≡ 2 - hs.msg - 1 = omega arith in
      (omega arith, last two, rw less at (ih (omega arith)))
    where
      last : ((hs'.msg ≡ 2) ⊎ (ciphers ≡ none)) → ((2 - hs.msg ≡ 1) ⊎ (ciphers ≡ none))
      last (inl e) = inl (omega arith)
      last (inr e) = inr e

  -- Any sequence of calls on a handshake that has exchanged at most two messages, in any order and with
  -- any input: at most two messages in all succeed, nothing succeeds after a call that failed, and
  -- only the second message gives ciphers.
  pub noise_run :
      (hs : HandshakeState) (cs : List Call) → hs.msg ≤ 2 → Succeeds (2 - hs.msg) (run hs cs)
  unfolding run
  noise_run hs [] le = tt
  noise_run hs (c ∷ cs) le =
      after_call hs c (call hs c) cs (call-Follows hs c) (noise_run (call hs c).1 cs)
