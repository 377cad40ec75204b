-- ===== src/Crypto/Tampering.antt =====
-- agentsecure/crypto/cipher.py: what decrypts was authenticated with the device key.
use agentsecure_community.Base.{
  ℕ, zero, suc, ◌+◌, ◌≤◌, ◌≡◌, refl, sym, ap, ◌∙◌, some, [], ◌∷◌, ◌++◌, arith, inl, inr,
  Option-cases,
}
use agentsecure_community.Base.Lists.{length}
use agentsecure_community.Base.Text.{Text, lit, text_eq, take_text, drop_text}
use agentsecure_community.Base.Exec.{ok}
use agentsecure_community.Crypto.{
  Bytes, version, xor, Primitives, AreDocumented, mac, keystream, decrypt_raw, decrypt,
}
use agentsecure_community.Crypto.RoundTrip.{drop_text_add, length-take_text}

take-drop : (n : ℕ) (s : Text) → take_text n s ++ drop_text n s ≡ s
take-drop zero s = refl
take-drop (suc n) [] = refl
take-drop (suc n) (c ∷ s) = ap (λ r. c ∷ r) (take-drop n s)

split_at : (k l : ℕ) (s : Text) → drop_text k s ≡ take_text l (drop_text k s) ++ drop_text (k + l) s
split_at k l s =
    sym (
      ap (λ r. take_text l (drop_text k s) ++ r) (drop_text_add k l s)
      ∙ take-drop l (drop_text k s))

split_layout :
    (k l m : ℕ) (s : Text)
    → s
      ≡ take_text k s
        ++ (take_text l (drop_text k s)
            ++ (take_text m (drop_text (k + l) s) ++ drop_text (k + l + m) s))
split_layout k l m s =
    sym (take-drop k s)
    ∙ ap (λ r. take_text k s ++ r)
        (split_at k l s ∙ ap (λ r. take_text l (drop_text k s) ++ r) (split_at (k + l) m s))

long_take : (n : ℕ) (s : Text) → length (take_text n s) ≡ n → n ≤ length s
long_take zero s h = omega arith
long_take (suc n) [] h = absurd (omega (arith, h))
long_take (suc n) (c ∷ s) h = omega (arith, long_take n s (omega (arith, h)))

long_take-drop :
    (k n : ℕ) (s : Text) → length (take_text (suc n) (drop_text k s)) ≡ suc n → k + suc n ≤ length s
long_take-drop zero n s h = omega (arith, long_take (suc n) s h)
long_take-drop (suc k) n [] h = absurd (omega (arith, h))
long_take-drop (suc k) n (c ∷ s) h = omega (arith, long_take-drop k n s h)

length-take-drop :
    (k n : ℕ) (s : Text) → k + n ≤ length s → length (take_text n (drop_text k s)) ≡ n
length-take-drop zero n s h = length-take_text n s (omega (arith, h))
length-take-drop (suc k) n [] h = absurd (omega (arith, h))
length-take-drop (suc k) n (c ∷ s) h = length-take-drop k n s (omega (arith, h))

-- A tag of 32 bytes behind the first 28 leaves room for a nonce of 16 behind the first 12.
nonce_size :
    (raw : Text)
    → length (take_text 32 (drop_text 28 raw)) ≡ 32
    → length (take_text 16 (drop_text 12 raw)) ≡ 16
nonce_size raw h = length-take-drop 12 16 raw (omega (arith, long_take-drop 28 31 raw h))

module _ (p : Primitives) where
  -- The bytes are the version, a nonce of 16 bytes, the digest of "mac", the nonce and a ciphertext
  -- with the device key, and that ciphertext, which the keystream of the nonce turns into the text.
  pub record IsAuthentic (raw : Bytes) (plaintext : Text) : Type 0 where
    pub nonce : Bytes
    pub ciphertext : Bytes
    pub size : length nonce ≡ 16
    pub layout :
        raw
        ≡ lit "AGENTSECURE1"
          ++ (nonce ++ (p.hmac p.key (lit "mac" ++ (nonce ++ ciphertext)) ++ ciphertext))
    pub reveals : p.decode (xor ciphertext (keystream p nonce (length ciphertext))) ≡ some plaintext

  accepted :
      (raw : Bytes) (plaintext : Text)
      → decrypt_raw p raw ≡ ok plaintext
      → (take_text 12 raw ≡ version)
        × (take_text 32 (drop_text 28 raw)
            ≡ mac p (take_text 16 (drop_text 12 raw)) (drop_text 60 raw))
        × (p.decode (
              xor
                (drop_text 60 raw)
                (keystream p (take_text 16 (drop_text 12 raw)) (length (drop_text 60 raw))))
            ≡ some plaintext)
  unfolding decrypt_raw
  accepted raw plaintext h = ground arith

  -- With digests of 32 bytes, a text that decrypts is the base64 of an authentic message: the
  -- version, a nonce of 16 bytes, the digest of "mac", the nonce and the ciphertext with the device
  -- key, and the ciphertext. The result is the ciphertext xor the keystream of the nonce, decoded.
  pub decrypt-IsAuthentic :
      AreDocumented p
      → (text plaintext : Text) → decrypt p text ≡ ok plaintext
      → (raw : Bytes) × (p.b64decode text ≡ some raw) × IsAuthentic raw plaintext
  unfolding decrypt mac
  decrypt-IsAuthentic doc text plaintext h = elim (Option-cases (p.b64decode text)) [
    | inl e ↦ absurd (ground arith)
    | inr (raw, e) ↦
        let (named, tagged, reveals) = accepted raw plaintext (ground arith) in
        (
          raw,
          e,
          record {
            nonce = take_text 16 (drop_text 12 raw);
            ciphertext = drop_text 60 raw;
            size = nonce_size raw (ap length tagged ∙ doc.length-hmac _ _);
            layout = rw (← named, ← tagged) (split_layout 12 16 32 raw);
            reveals = reveals;
          },
        )
  ]
