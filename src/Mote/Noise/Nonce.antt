-- ===== src/Mote/Noise/Nonce.antt =====
-- No key encrypts two messages under one nonce.
use native.Mathlib.Nat.{pow-suc}
use cmd.Prelude.{
  ℕ, zero, suc, ◌+◌, ◌*◌, ◌/◌, ◌^◌, ◌≤◌, ◌<◌, ◌≡◌, ◌≢◌, ap, ◌∙◌, [], ◌∷◌, arith, Bytes, ok,
}
use cmd.Mote.Noise.{Crypto, CipherState, max_uint64, little_endian, nonce, encrypt}

-- The number that little-endian bytes spell.
abbrev value : Bytes → ℕ
value [] = 0
value (b ∷ bs) = b + 256 * value bs

value-little_endian : (k n : ℕ) → n < 256 ^ k → value (little_endian k n) ≡ n
unfolding little_endian
value-little_endian zero n h = omega arith
value-little_endian (suc k) n h =
    let small : n / 256 < 256 ^ k = omega (arith, pow-suc 256 k) in
    omega (arith, value-little_endian k (n / 256) small)

value-nonce : (n : ℕ) → n ≤ max_uint64 → value (nonce n) ≡ 2 ^ 32 * n
unfolding nonce
value-nonce n h = omega (arith, value-little_endian 8 n (omega arith))

nonce_injective : (m n : ℕ) → m ≤ max_uint64 → n ≤ max_uint64 → nonce m ≡ nonce n → m ≡ n
nonce_injective m n hm hn e =
    omega (arith, value-nonce m hm, value-nonce n hn, ap (λ (bs : Bytes). value bs) e)

module _ (C : Crypto) where
  -- `d` is the state of a cipher after one or more messages from `c` on.
  pub data Later (c : CipherState) : CipherState → Type 0 where
    one : {d : CipherState} (ad text ct : Bytes) → encrypt C c ad text ≡ ok (ct, d) → Later c d
    more :
        {d e : CipherState} (ad text ct : Bytes)
        → Later c d
        → encrypt C d ad text ≡ ok (ct, e)
        → Later c e

  encrypt_step :
      (c d : CipherState) (ad text ct : Bytes)
      → c.n ≤ max_uint64
      → encrypt C c ad text ≡ ok (ct, d)
      → (d.n ≡ c.n + 1)
        × (d.n ≤ max_uint64)
        × (d.key ≡ c.key)
        × (ct ≡ C.seal c.key (nonce c.n) text ad)
  unfolding encrypt
  encrypt_step c d ad text ct le h = ground arith

  Later-lt :
      (c d : CipherState)
      → c.n ≤ max_uint64
      → Later c d
      → (c.n < d.n) × (d.n ≤ max_uint64) × (d.key ≡ c.key)
  Later-lt c d le (one ad text ct h) =
      let (count, fits, same, _) = encrypt_step c d ad text ct le h in (omega arith, fits, same)
  Later-lt c e le (more {d = d} ad text ct l h) =
      let (less, fits, same) = Later-lt c d le l in
      let (count, fits', same', _) = encrypt_step d e ad text ct fits h in
      (omega arith, fits', same' ∙ same)

  -- A message is sealed with the cipher's key under the nonce of its counter; after any number of
  -- messages, whatever they were, the key is still the same and the nonce differs from every one that
  -- was used before. Encryption stops before the counter wraps around.
  pub nonce_unique :
      (c d e : CipherState) (ad text ct : Bytes)
      → c.n ≤ max_uint64
      → Later c d
      → encrypt C d ad text ≡ ok (ct, e)
      → (ct ≡ C.seal c.key (nonce d.n) text ad) × (nonce c.n ≢ nonce d.n) × (d.n < max_uint64)
  nonce_unique c d e ad text ct le l h =
      let (less, fits, same) = Later-lt c d le l in
      let (count, fits', _, sealed) = encrypt_step d e ad text ct fits h in
      (
        rw (← same) sealed,
        (λ clash. absurd (omega (arith, nonce_injective c.n d.n le fits clash))),
        omega arith,
      )
