-- ===== src/Mote/Cpace/Binding.antt =====
-- cpace.go: what two parties that have the same key agree on.
use cmd.Prelude.{◌≡◌, ◌≢◌, refl, sym, ap, ◌∙◌, inl, inr, some, List, [], ◌∷◌, ◌++◌, Bytes, ok, err}
use cmd.Mote.Cpace.{
  Suite, Role, initiator, responder, symmetric, other, State, dsi_isk, lv_cat, transcript, ordered,
  exchange, isk_input, derive, shared, finish,
}
use cmd.Mote.Cpace.Encoding.{lv_cat_injective, lv_cat-append}
use cmd.Mote.Cpace.Refusal.{finish_cases}

-- The messages of an exchange in the order that the role gives them.
abbrev pub View : Type 0
View = (Bytes × Bytes) × (Bytes × Bytes)

abbrev parts : View → List Bytes
parts v = v.0.0 ∷ v.0.1 ∷ v.1.0 ∷ v.1.1 ∷ []

exchange-parts :
    (role : Role) (y ad y' ad' : Bytes)
    → role ≢ symmetric
    → exchange role y ad y' ad' ≡ lv_cat (parts (ordered role y ad y' ad'))
unfolding exchange ordered transcript
exchange-parts initiator y ad y' ad' plain = sym (lv_cat-append (y ∷ ad ∷ []) (y' ∷ ad' ∷ []))
exchange-parts responder y ad y' ad' plain = sym (lv_cat-append (y' ∷ ad' ∷ []) (y ∷ ad ∷ []))
exchange-parts symmetric y ad y' ad' plain = absurd (plain refl)
exchange-parts other y ad y' ad' plain = sym (lv_cat-append (y ∷ ad ∷ []) (y' ∷ ad' ∷ []))

abbrev pub view : State → Bytes → Bytes → View
view s msg ad = ordered s.role s.msg s.ad msg ad

isk_input-parts :
    (s : State) (k msg ad : Bytes)
    → s.role ≢ symmetric
    → isk_input s k msg ad ≡ lv_cat (dsi_isk ∷ s.sid ∷ k ∷ parts (view s msg ad))
unfolding isk_input
isk_input-parts s k msg ad plain =
    ap (λ t. lv_cat (dsi_isk ∷ s.sid ∷ k ∷ []) ++ t) (exchange-parts s.role s.msg s.ad msg ad plain)
    ∙ sym (lv_cat-append (dsi_isk ∷ s.sid ∷ k ∷ []) (parts (view s msg ad)))

module _ (C : Suite) where
  -- The secret that the state shares with the sender of a message.
  abbrev pub IsSecret : State → Bytes → Bytes → Type 0
  IsSecret s msg k = (priv : Bytes) × (s.priv ≡ some priv) × (shared C priv msg ≡ ok k)

  finish_key :
      (s : State) (msg ad isk : Bytes)
      → (finish C s msg ad).0 ≡ ok isk
      → (k : Bytes) × IsSecret s msg k × (isk ≡ C.sha512 (isk_input s k msg ad))
  unfolding derive isk_input
  finish_key s msg ad isk done = elim (finish_cases C s msg ad) [
    | inl (isk', t, e, f) ↦
        let whole : ok isk' ≡ ok isk = ap (λ r. r.0) (sym e) ∙ done in
        let key : isk' ≡ isk = cc in (f.k, (f.priv, f.unused, f.secret), sym key ∙ f.key)
    | inr (e, failed) ↦ absurd (let no : err e ≡ ok isk = ap (λ r. r.0) (sym failed) ∙ done in cc)
  ]

  -- Two parties with the same key, neither in a symmetric exchange, have the same session identifier
  -- and saw the same messages in the same order, unless the two texts that they hash into the key, with
  -- the secrets that they computed, are a collision of SHA-512.
  pub finish_same_key :
      (s s' : State) (msg ad msg' ad' isk : Bytes)
      → s.role ≢ symmetric
      → s'.role ≢ symmetric
      → ((k k' : Bytes)
          → IsSecret s msg k
          → IsSecret s' msg' k'
          → C.sha512 (isk_input s k msg ad) ≡ C.sha512 (isk_input s' k' msg' ad')
          → isk_input s k msg ad ≡ isk_input s' k' msg' ad')
      → (finish C s msg ad).0 ≡ ok isk
      → (finish C s' msg' ad').0 ≡ ok isk
      → (s.sid ≡ s'.sid) × (view s msg ad ≡ view s' msg' ad')
  finish_same_key s s' msg ad msg' ad' isk plain plain' distinct done done' =
      let (k, secret, e) = finish_key s msg ad isk done in
      let (k', secret', e') = finish_key s' msg' ad' isk done' in
      let lists : dsi_isk ∷ s.sid ∷ k ∷ parts (view s msg ad)
          ≡ dsi_isk ∷ s'.sid ∷ k' ∷ parts (view s' msg' ad') =
        lv_cat_injective (dsi_isk ∷ s.sid ∷ k ∷ parts (view s msg ad))
          (dsi_isk ∷ s'.sid ∷ k' ∷ parts (view s' msg' ad')) refl
          (sym (isk_input-parts s k msg ad plain)
            ∙ distinct k k' secret secret' (sym e ∙ e')
            ∙ isk_input-parts s' k' msg' ad' plain') in
      let a0 : (view s msg ad).0.0 ≡ (view s' msg' ad').0.0 = cc in
      let a1 : (view s msg ad).0.1 ≡ (view s' msg' ad').0.1 = cc in
      let b0 : (view s msg ad).1.0 ≡ (view s' msg' ad').1.0 = cc in
      let b1 : (view s msg ad).1.1 ≡ (view s' msg' ad').1.1 = cc in
      (cc, λ i. ((a0 i, a1 i), (b0 i, b1 i)))
