-- ===== src/Mote/Password/Silence.antt =====
-- What a server tells a client that has not shown that it knows the password.
use cmd.Prelude.{
  ◌≡◌, ap, ◌∙◌, ◌⊎◌, inl, inr, true, Bool-cases, Option, some, Option-cases, Bytes, ok, err,
  Result-cases,
}
use cmd.Prelude.Io.{Source, Sink}
use cmd.Mote.Packet.{read_handshake_packet}
use cmd.Mote.Noise.{Crypto}
use cmd.Mote.Password.Packets.{
  then_read-ok, then_read-err, then_send-some, then_send-none, given-none, given-some,
  checked-false,
}
use cmd.Mote.Password.{
  Cpace, SecureError, send, Outcome, then_send, then_read, given, packet, cpace_failed,
  wrong_client, channel_id, server_confirm, secure_server,
}

module _ (P : Cpace) (C : Crypto) (password scalar : Bytes) where
  -- The client has answered the server's first message with one of its own and then with the
  -- confirmation that belongs to the two.
  pub record IsConfirmed (src : Source) : Type 0 where
    pub msg1 : Bytes
    pub msg2 : Bytes
    pub tag : Bytes
    pub key : Bytes
    pub st : P.State
    pub st' : P.State
    pub src1 : Source
    pub src2 : Source
    pub started : P.start true password channel_id scalar ≡ some (st, msg1)
    pub answer : read_handshake_packet src ≡ ok (msg2, src1)
    pub finished : P.finish st msg2 ≡ some (key, st')
    pub confirmation : read_handshake_packet src1 ≡ ok (tag, src2)
    pub verified : P.verify st' tag ≡ true

  -- The server has written nothing, or its first message.
  abbrev pub IsSilent : Sink → Outcome → Type 0
  IsSilent w o =
      (o.1 ≡ w)
      ⊎ ((msg1 : Bytes) × (st : P.State) × (P.start true password channel_id scalar
            ≡ some (st, msg1))
          × (o.1 ≡ (send msg1 w).1))

  -- The server's state and first message, the connection after it, and what comes then.
  module _ (fresh : Option Bytes) (src : Source) (w : Sink) (st : P.State) (msg1 : Bytes)
      (started : P.start true password channel_id scalar ≡ some (st, msg1)) where
    abbrev w1 : Sink
    w1 = (send msg1 w).1

    abbrev run : Outcome
    run = secure_server P C password scalar fresh src w

    abbrev confirm : (Bytes × P.State) → Source → Outcome
    confirm key src1 = server_confirm P C fresh key.0 key.1 src1 w1

    abbrev read_answer : Sink → Outcome
    read_answer w' = then_read src packet w' (λ msg2 src1.
        given (P.finish st msg2) cpace_failed w'
          (λ key. server_confirm P C fresh key.0 key.1 src1 w'))

    quiet : (e : SecureError) → run ≡ (err e, w1) → IsSilent w run ⊎ IsConfirmed src
    quiet e h = inl (inr (msg1, st, started, ap (λ (o : Outcome). o.1) h))

    IsSilent-confirm :
        (msg2 key : Bytes) (st' : P.State) (src1 : Source)
        → read_handshake_packet src ≡ ok (msg2, src1)
        → P.finish st msg2 ≡ some (key, st')
        → run ≡ confirm (key, st') src1
        → IsSilent w run ⊎ IsConfirmed src
    unfolding server_confirm
    IsSilent-confirm msg2 key st' src1 answer finished so =
        elim (Result-cases (read_handshake_packet src1)) [
          | inr (e, f) ↦ quiet (packet e) (so ∙ then_read-err src1 packet w1 _ e f)
          | inl ((tag, src2), f) ↦ elim (Bool-cases (P.verify st' tag)) [
            | inr g ↦
                quiet wrong_client
                  (so ∙ then_read-ok src1 packet w1 _ tag src2 f ∙ checked-false _ _ w1 _ g)
            | inl g ↦ inr (record {
              msg1 = msg1;
              msg2 = msg2;
              tag = tag;
              key = key;
              st = st;
              st' = st';
              src1 = src1;
              src2 = src2;
              started = started;
              answer = answer;
              finished = finished;
              confirmation = f;
              verified = g;
            })
          ]
        ]

    IsSilent-answer : run ≡ read_answer w1 → IsSilent w run ⊎ IsConfirmed src
    IsSilent-answer so = elim (Result-cases (read_handshake_packet src)) [
      | inr (e, f) ↦ quiet (packet e) (so ∙ then_read-err src packet w1 _ e f)
      | inl ((msg2, src1), f) ↦ elim (Option-cases (P.finish st msg2)) [
        | inl g ↦
            quiet cpace_failed
              (so ∙ then_read-ok src packet w1 _ msg2 src1 f ∙ given-none _ _ w1 _ g)
        | inr ((key, st'), g) ↦
            IsSilent-confirm msg2 key st' src1 f g
              (so ∙ then_read-ok src packet w1 _ msg2 src1 f ∙ given-some _ (key, st') _ w1 _ g)
      ]
    ]

    IsSilent-start : run ≡ then_send msg1 w read_answer → IsSilent w run ⊎ IsConfirmed src
    IsSilent-start so = elim (Option-cases (send msg1 w).0) [
      | inr (e, f) ↦ quiet (packet e) (so ∙ then_send-some msg1 w read_answer e f)
      | inl f ↦ IsSilent-answer (so ∙ then_send-none msg1 w read_answer f)
    ]

  -- Whatever a client sends and however the connection fails, `secureServer` writes nothing but its
  -- first message, which does not depend on the client, unless the client's confirmation is verified.
  pub secure_server-IsSilent :
      (fresh : Option Bytes) (src : Source) (w : Sink)
      → IsSilent w (secure_server P C password scalar fresh src w) ⊎ IsConfirmed src
  unfolding secure_server
  secure_server-IsSilent fresh src w =
      elim (Option-cases (P.start true password channel_id scalar)) [
        | inl e ↦ inl (inl (ap (λ (o : Outcome). o.1) (given-none _ _ w _ e)))
        | inr ((st, msg1), e) ↦
            IsSilent-start fresh src w st msg1 e (given-some _ (st, msg1) _ w _ e)
      ]
