-- ===== src/Mote/Cpace/Agreement.antt =====
-- cpace.go: the two sides of an exchange, each given what the other sent.
use cmd.Prelude.{
  ◌≡◌, ◌≢◌, refl, sym, ap, ◌∙◌, true, false, none, some, inl, inr, [], ◌∷◌, ◌++◌, arith, Bytes,
  bytes_eq, bytes_eq_iff, ok, >>=-eq-ok, need, need-eq-ok,
}
use mathlib.Core.Path.{subst}
use cmd.Prelude.Order.{bytes_ltb_total}
use cmd.Mote.Cpace.{
  Suite, Role, initiator, responder, symmetric, Config, State, o_cat, lv_cat, transcript, ordered,
  exchange, isk_input, mac_input, dsi_sid, dsi_isk, generator, start, mac, derive, shared, started,
  invalid_scalar, unreachable, invalid_generator, finish, verify,
}

-- The roles of two parties of one exchange.
pub data Pairs : Role → Role → Type 0 where
  first : Pairs initiator responder
  second : Pairs responder initiator
  either : Pairs symmetric symmetric

-- What X25519 promises: exponents commute, and what a scalar multiplication gives is a public key
-- that no scalar takes to the neutral element.
pub record IsGroup (C : Suite) : Type 0 where
  pub is_element :
      (p g m : Bytes)
      → C.ecdh p g ≡ some m
      → (e : Bytes) × (C.new_public_key m ≡ some e)
        × ((q : Bytes) → (k : Bytes) × (C.ecdh q e ≡ some k))
  pub commutes :
      (p q g m m' e e' : Bytes)
      → C.ecdh p g ≡ some m
      → C.ecdh q g ≡ some m'
      → C.new_public_key m ≡ some e
      → C.new_public_key m' ≡ some e'
      → C.ecdh p e' ≡ C.ecdh q e

pub o_cat_comm : (v w : Bytes) → o_cat v w ≡ o_cat w v
unfolding o_cat
o_cat_comm v w = elim (bytes_ltb_total v w) [
  | inl (less, more) ↦ rw (less, more) refl
  | inr (inl (less, more)) ↦ rw (less, more) refl
  | inr (inr same) ↦ rw same refl
]

-- Both sides write down the same exchange.
pub exchange_agree :
    {role role' : Role} (y ad y' ad' : Bytes)
    → Pairs role role'
    → exchange role y ad y' ad' ≡ exchange role' y' ad' y ad
unfolding exchange ordered transcript
exchange_agree y ad y' ad' first = refl
exchange_agree y ad y' ad' second = refl
exchange_agree y ad y' ad' either = o_cat_comm (lv_cat (y ∷ ad ∷ [])) (lv_cat (y' ∷ ad' ∷ []))

module _ (C : Suite) where
  -- What a start that succeeds has computed.
  pub record IsStarted (cfg : Config) (scalar : Bytes) (s : State) (m : Bytes) : Type 0 where
    pub priv : Bytes
    pub g : Bytes
    pub keyed : C.new_private_key scalar ≡ some priv
    pub mapped : C.new_public_key (generator C cfg.password cfg.channel_id cfg.session_id) ≡ some g
    pub multiplied : C.ecdh priv g ≡ some m
    pub state : s ≡ started cfg priv m

  pub start-IsStarted :
      (cfg : Config) (scalar : Bytes) (s : State) (m : Bytes)
      → start C cfg scalar ≡ ok (s, m)
      → IsStarted cfg scalar s m
  unfolding start
  start-IsStarted cfg scalar s m e =
      let (priv, e1, h1) = >>=-eq-ok (need (C.new_private_key scalar) invalid_scalar) _ e in
      let (g, e2, h2) =
        >>=-eq-ok
          (need (C.new_public_key (generator C cfg.password cfg.channel_id cfg.session_id))
            unreachable)
          _ e1 in
      let (msg, e3, h3) = >>=-eq-ok (need (C.ecdh priv g) invalid_generator) _ e2 in
      let made : started cfg priv msg ≡ s = cc in
      let sent : msg ≡ m = cc in
      record {
        priv = priv;
        g = g;
        keyed = need-eq-ok _ _ h1;
        mapped = need-eq-ok _ _ h2;
        multiplied = need-eq-ok _ _ h3 ∙ ap (λ t. some t) sent;
        state = sym made ∙ ap (λ t. started cfg priv t) sent;
      }

  -- The state behind a Finish that succeeds.
  finish_ok :
      (s : State) (priv msg ad peer k : Bytes)
      → s.priv ≡ some priv
      → msg ≢ s.msg
      → C.new_public_key msg ≡ some peer
      → C.ecdh priv peer ≡ some k
      → finish C s msg ad ≡ (
        ok (derive C (record s { priv = none }) k msg ad).0,
        (derive C (record s { priv = none }) k msg ad).1,
      )
  unfolding finish shared
  finish_ok s priv msg ad peer k hp hm hk he =
      let new : bytes_eq msg s.msg ≡ false = ground (arith, bytes_eq_iff msg s.msg) in
      rw (hp, new, hk, he) refl

  -- Both have the same key and the same session, and accept each other's confirmation.
  pub record IsAgreed (s s' : State) (m m' ad ad' : Bytes) : Type 0 where
    pub key : Bytes
    pub end : State
    pub end' : State
    pub session : Bytes
    pub mac_key : Bytes
    pub finishes : finish C s m' ad' ≡ (ok key, end)
    pub finishes' : finish C s' m ad ≡ (ok key, end')
    pub identified : end.sid_output ≡ some session
    pub identified' : end'.sid_output ≡ some session
    pub tagged : end.tag ≡ some (mac C mac_key m ad)
    pub tagged' : end'.tag ≡ some (mac C mac_key m' ad')
    pub verifies : verify end (mac C mac_key m' ad') ≡ none
    pub verifies' : verify end' (mac C mac_key m ad) ≡ none

  verify_same : (s : State) (tag : Bytes) → s.peer_tag ≡ some tag → verify s tag ≡ none
  unfolding verify
  verify_same s tag h =
      let same : bytes_eq tag tag ≡ true = (bytes_eq_iff tag tag).1 refl in rw (h, same) refl

  -- The two sides behind the shared secret.
  derive_agree :
      (cfg cfg' : Config) (priv priv' m m' e e' k : Bytes)
      → Pairs cfg.role cfg'.role
      → cfg.session_id ≡ cfg'.session_id
      → m ≢ m'
      → C.new_public_key m ≡ some e
      → C.new_public_key m' ≡ some e'
      → C.ecdh priv e' ≡ some k
      → C.ecdh priv' e ≡ some k
      → IsAgreed (started cfg priv m) (started cfg' priv' m') m m' cfg.ad cfg'.ad
  unfolding derive isk_input
  derive_agree cfg cfg' priv priv' m m' e e' k pair sid differ he he' hk hk' =
      let s = record (started cfg priv m) { priv = none } in
      let s' = record (started cfg' priv' m') { priv = none } in
      let one = derive C s k m' cfg'.ad in
      let two = derive C s' k m cfg.ad in
      let same = exchange_agree m cfg.ad m' cfg'.ad pair in
      let key : one.0 ≡ two.0 = ap C.sha512 (
        ap (λ t. lv_cat (dsi_isk ∷ t ∷ k ∷ []) ++ exchange cfg.role m cfg.ad m' cfg'.ad) sid
        ∙ ap (λ t. lv_cat (dsi_isk ∷ cfg'.session_id ∷ k ∷ []) ++ t) same) in
      let mac_key = C.sha512 (mac_input cfg.session_id one.0) in
      let mac_key' = C.sha512 (mac_input cfg'.session_id two.0) in
      let mac_same : mac_key ≡ mac_key' =
        ap C.sha512 (ap (λ t. mac_input t one.0) sid ∙ ap (mac_input cfg'.session_id) key) in
      record {
        key = one.0;
        end = one.1;
        end' = two.1;
        session = C.sha512 (dsi_sid ++ exchange cfg.role m cfg.ad m' cfg'.ad);
        mac_key = mac_key;
        finishes =
            finish_ok (started cfg priv m) priv m' cfg'.ad e' k refl (λ h. differ (sym h)) he' hk;
        finishes' =
            finish_ok (started cfg' priv' m') priv' m cfg.ad e k refl differ he hk'
            ∙ ap (λ t. (ok t, two.1)) (sym key);
        identified = refl;
        identified' = ap (λ t. some (C.sha512 (dsi_sid ++ t))) (sym same);
        tagged = refl;
        tagged' = ap (λ t. some (mac C t m' cfg'.ad)) (sym mac_same);
        verifies = verify_same one.1 (mac C mac_key m' cfg'.ad) refl;
        verifies' =
            verify_same two.1 (mac C mac_key m cfg.ad)
              (ap (λ t. some (mac C t m cfg.ad)) (sym mac_same));
      }

  -- Two parties of paired roles that start with the same password, channel and session, and whose
  -- messages differ: given each other's message and associated data, both finish with the same key and
  -- the same session identifier, each has a tag under one key over what it sent, and each accepts the
  -- tag of the other. X25519 is a group as `IsGroup` says.
  pub exchange_agreement :
      (cfg cfg' : Config) (scalar scalar' : Bytes) (s s' : State) (m m' : Bytes)
      → IsGroup C
      → Pairs cfg.role cfg'.role
      → cfg.password ≡ cfg'.password
      → cfg.channel_id ≡ cfg'.channel_id
      → cfg.session_id ≡ cfg'.session_id
      → start C cfg scalar ≡ ok (s, m)
      → start C cfg' scalar' ≡ ok (s', m')
      → m ≢ m'
      → IsAgreed s s' m m' cfg.ad cfg'.ad
  exchange_agreement cfg cfg' scalar scalar' s s' m m' group pair pw ci sid h h' differ =
      let a = start-IsStarted cfg scalar s m h in
      let b = start-IsStarted cfg' scalar' s' m' h' in
      let point : generator C cfg.password cfg.channel_id cfg.session_id
          ≡ generator C cfg'.password cfg'.channel_id cfg'.session_id =
        ap (λ t. generator C t cfg.channel_id cfg.session_id) pw
        ∙ ap (λ t. generator C cfg'.password t cfg.session_id) ci
        ∙ ap (generator C cfg'.password cfg'.channel_id) sid in
      let mapped : some a.g ≡ some b.g = sym a.mapped ∙ ap C.new_public_key point ∙ b.mapped in
      let base : a.g ≡ b.g = cc in
      let (e, he, _) = group.is_element a.priv a.g m a.multiplied in
      let (e', he', all) = group.is_element b.priv b.g m' b.multiplied in
      let (k, hk) = all a.priv in
      let hk' =
        sym (
          group.commutes a.priv b.priv a.g m m' e e' a.multiplied
            (ap (C.ecdh b.priv) base ∙ b.multiplied) he he')
        ∙ hk in
      let agreed = derive_agree cfg cfg' a.priv b.priv m m' e e' k pair sid differ he he' hk hk' in
      subst (λ t. IsAgreed t s' m m' cfg.ad cfg'.ad) (sym a.state)
        (subst (λ t. IsAgreed (started cfg a.priv m) t m m' cfg.ad cfg'.ad) (sym b.state) agreed)
