-- ===== src/Mote/Cpace/Refusal.antt =====
-- cpace.go: when Finish and Verify refuse.
use cmd.Prelude.{
  ◌≡◌, ◌≢◌, ◌⊎◌, refl, sym, ap, ◌∙◌, false, Bool-cases, none, some, inl, inr, [], ◌∷◌, arith, Bytes,
  bytes_eq, bytes_eq_iff, Option-cases, ok, err, Result-cases,
}
use cmd.Mote.Cpace.{
  Suite, State, CpaceError, already_finished, own_message, not_confirmed, lv_cat, mac_input, mac,
  derive, shared, finish, verify,
}
use cmd.Mote.Cpace.Encoding.{lv_cat_injective}

module _ (C : Suite) where
  -- What a Finish that gives a key has computed.
  pub record IsFinished (s : State) (msg ad isk : Bytes) (t : State) : Type 0 where
    pub priv : Bytes
    pub k : Bytes
    pub unused : s.priv ≡ some priv
    pub foreign : msg ≢ s.msg
    pub secret : shared C priv msg ≡ ok k
    pub key : isk ≡ (derive C (record s { priv = none }) k msg ad).0
    pub end : t ≡ (derive C (record s { priv = none }) k msg ad).1

  -- A Finish that fails leaves the state, less its private key.
  pub finish_cases :
      (s : State) (msg ad : Bytes)
      → ((isk : Bytes) × (t : State) × (finish C s msg ad ≡ (ok isk, t))
          × IsFinished s msg ad isk t)
        ⊎ ((e : CpaceError) × (finish C s msg ad ≡ (err e, record s { priv = none })))
  unfolding finish
  finish_cases s msg ad = elim (Option-cases s.priv) [
    | inl closed ↦ inr (
      already_finished,
      rw (closed, finish) (ap (λ p. (err already_finished, record s { priv = p })) closed),
    )
    | inr (priv, h) ↦ elim (Bool-cases (bytes_eq msg s.msg)) [
      | inl own ↦ inr (own_message, rw (h, own) refl)
      | inr foreign ↦ elim (Result-cases (shared C priv msg)) [
        | inl (k, secret) ↦
            let (isk, t) = derive C (record s { priv = none }) k msg ad in
            inl (
              isk,
              t,
              rw (h, foreign, secret) refl,
              record {
                priv = priv;
                k = k;
                unused = h;
                foreign = ground (arith, bytes_eq_iff msg s.msg);
                secret = secret;
                key = refl;
                end = refl;
              },
            )
        | inr (e, bad) ↦ inr (e, rw (h, foreign, bad) refl)
      ]
    ]
  ]

  finish_closed :
      (s : State) (msg ad : Bytes) → s.priv ≡ none → finish C s msg ad ≡ (err already_finished, s)
  unfolding finish
  finish_closed s msg ad h = rw h refl

  derive_closed : (s : State) (k msg ad : Bytes) → (derive C s k msg ad).1.priv ≡ s.priv
  unfolding derive
  derive_closed s k msg ad = refl

  finish_used : (s : State) (msg ad : Bytes) → (finish C s msg ad).1.priv ≡ none
  finish_used s msg ad = elim (finish_cases s msg ad) [
    | inl (isk, t, e, f) ↦
        ap (λ r. r.1.priv) e ∙ ap (λ u. u.priv) f.end ∙ derive_closed _ f.k msg ad
    | inr (e, failed) ↦ ap (λ r. r.1.priv) failed
  ]

  -- Whatever a first Finish did, every later one is refused and changes nothing.
  pub finish_once :
      (s : State) (msg ad msg' ad' : Bytes)
      → finish C (finish C s msg ad).1 msg' ad' ≡ (err already_finished, (finish C s msg ad).1)
  finish_once s msg ad msg' ad' = finish_closed _ msg' ad' (finish_used s msg ad)

  -- A Finish that succeeds sets the tag of this side and that of the other.
  abbrev pub confirmation : State → Bytes → Bytes → Bytes → Bytes
  confirmation s isk msg ad = mac C (C.sha512 (mac_input s.sid isk)) msg ad

  finish_tags :
      {s : State} {msg ad isk : Bytes} {t : State}
      → IsFinished s msg ad isk t
      → (t.tag ≡ some (confirmation s isk s.msg s.ad))
        × (t.peer_tag ≡ some (confirmation s isk msg ad))
  unfolding derive
  finish_tags {s} {msg} {ad} f = (
    ap (λ u. u.tag) f.end ∙ ap (λ k. some (confirmation s k s.msg s.ad)) (sym f.key),
    ap (λ u. u.peer_tag) f.end ∙ ap (λ k. some (confirmation s k msg ad)) (sym f.key),
  )

  verify_accepts : (t : State) (tag : Bytes) → verify t tag ≡ none → t.peer_tag ≡ some tag
  unfolding verify
  verify_accepts t tag h = elim (Option-cases t.peer_tag) [
    | inl nil ↦ absurd (ground (arith, nil, h))
    | inr (peer, e) ↦ ground (arith, e, h, bytes_eq_iff tag peer)
  ]

  -- The state of a fresh exchange has no tags. Behind Finish, Verify accepts only the tag that the key
  -- gives to the message and the associated data received, and nothing if Finish failed.
  pub finish_confirms :
      (s : State) (msg ad tag : Bytes)
      → s.peer_tag ≡ none
      → verify (finish C s msg ad).1 tag ≡ none
      → (isk : Bytes) × ((finish C s msg ad).0 ≡ ok isk) × (tag ≡ confirmation s isk msg ad)
  finish_confirms s msg ad tag fresh accepted =
      let holds = verify_accepts (finish C s msg ad).1 tag accepted in
      elim (finish_cases s msg ad) [
        | inl (isk, t, e, f) ↦
            let kept : some tag ≡ some (confirmation s isk msg ad) =
              sym holds ∙ ap (λ r. r.1.peer_tag) e ∙ (finish_tags f).1 in
            (isk, ap (λ r. r.0) e, cc)
        | inr (e, failed) ↦
            let kept : some tag ≡ none = sym holds ∙ ap (λ r. r.1.peer_tag) failed ∙ fresh in
            absurd cc
      ]

  verify_refuses :
      (t : State) (tag peer : Bytes)
      → t.peer_tag ≡ some peer
      → tag ≢ peer
      → verify t tag ≡ some not_confirmed
  unfolding verify
  verify_refuses t tag peer e differ =
      let no_match : bytes_eq tag peer ≡ false = ground (arith, bytes_eq_iff tag peer) in
      rw (e, no_match) refl

  -- Two texts, each of a message and associated data, that one key does not tell apart.
  abbrev pub Collide : Bytes → Bytes → Bytes → Bytes → Bytes → Type 0
  Collide key msg ad msg' ad' =
      (lv_cat (msg ∷ ad ∷ []) ≢ lv_cat (msg' ∷ ad' ∷ [])) × (mac C key msg ad ≡ mac C key msg' ad')

  -- This side's own tag sent back to it is refused, unless HMAC has a collision between what the two
  -- sides have sent.
  pub finish_reflected :
      (s : State) (msg ad isk own : Bytes)
      → ¬ Collide (C.sha512 (mac_input s.sid isk)) s.msg s.ad msg ad
      → (finish C s msg ad).0 ≡ ok isk
      → (finish C s msg ad).1.tag ≡ some own
      → verify (finish C s msg ad).1 own ≡ some not_confirmed
  finish_reflected s msg ad isk own distinct done tagged = elim (finish_cases s msg ad) [
    | inl (isk', t, e, f) ↦
        let (mine, theirs) = finish_tags f in
        let whole : ok isk' ≡ ok isk = ap (λ r. r.0) (sym e) ∙ done in
        let key : isk' ≡ isk = cc in
        let kept : some own ≡ some (confirmation s isk' s.msg s.ad) =
          sym tagged ∙ ap (λ r. r.1.tag) e ∙ mine in
        let is_own : own ≡ confirmation s isk' s.msg s.ad = cc in
        let texts : lv_cat (s.msg ∷ s.ad ∷ []) ≢ lv_cat (msg ∷ ad ∷ []) = λ same.
          let list : s.msg ∷ s.ad ∷ [] ≡ msg ∷ ad ∷ [] =
            lv_cat_injective (s.msg ∷ s.ad ∷ []) (msg ∷ ad ∷ []) refl same in
          f.foreign cc in
        verify_refuses _ own (confirmation s isk msg ad)
          (ap (λ r. r.1.peer_tag) e ∙ theirs ∙ ap (λ k. some (confirmation s k msg ad)) key)
          (λ same.
            distinct (texts, ap (λ k. confirmation s k s.msg s.ad) (sym key) ∙ sym is_own ∙ same))
    | inr (e, failed) ↦ absurd (let no : err e ≡ ok isk = ap (λ r. r.0) (sym failed) ∙ done in cc)
  ]
