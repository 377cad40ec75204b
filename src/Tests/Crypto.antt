-- ===== src/Tests/Crypto.antt =====
-- crypto/cipher.py with concrete primitives.
use agentsecure_community.Base.{ℕ, zero, suc, ◌+◌, ◌≡◌, refl, ap, ◌∙◌, some, [], ◌∷◌, arith}
use agentsecure_community.Base.Text.{Text, lit, text_eq}
use agentsecure_community.Base.Exec.{ok}
use agentsecure_community.Secrets.{IsLawful}
use agentsecure_community.Crypto.{Bytes, AreBytes, Primitives, AreDocumented, encrypt, decrypt}
use agentsecure_community.Crypto.RoundTrip.{decrypt-encrypt}
use agentsecure_community.Crypto.Tampering.{IsAuthentic, decrypt-IsAuthentic}
use agentsecure_community.Crypto.Store.{cipher_store, cipher_store-IsLawful}

-- A number of ones, and a zero behind them.
abbrev ones : ℕ → Bytes → Bytes
ones zero rest = 0 ∷ rest
ones (suc n) rest = 1 ∷ ones n rest

abbrev unary : Text → Bytes
unary [] = []
unary (c ∷ s) = ones c (unary s)

abbrev counted : ℕ → Bytes → Text
counted n [] = []
counted n (zero ∷ rest) = n ∷ counted 0 rest
counted n (suc b ∷ rest) = counted (suc n) rest

counted-ones : (n m : ℕ) (rest : Bytes) → counted m (ones n rest) ≡ (m + n) ∷ counted 0 rest
counted-ones zero m rest = ap (λ k. k ∷ counted 0 rest) (omega arith)
counted-ones (suc n) m rest =
    counted-ones n (suc m) rest ∙ ap (λ k. k ∷ counted 0 rest) (omega arith)

counted-unary : (s : Text) → counted 0 (unary s) ≡ s
counted-unary [] = refl
counted-unary (c ∷ s) =
    counted-ones c 0 (unary s)
    ∙ ap (λ k. k ∷ counted 0 (unary s)) (omega arith)
    ∙ ap (λ t. c ∷ t) (counted-unary s)

ones-AreBytes : (n : ℕ) (rest : Bytes) → AreBytes rest → AreBytes (ones n rest)
ones-AreBytes zero rest h = (omega arith, h)
ones-AreBytes (suc n) rest h = (omega arith, ones-AreBytes n rest h)

unary-AreBytes : (s : Text) → AreBytes (unary s)
unary-AreBytes [] = tt
unary-AreBytes (c ∷ s) = ones-AreBytes c (unary s) (unary-AreBytes s)

abbrev digest : ℕ → ℕ → Bytes
digest zero b = []
digest (suc n) b = b ∷ digest n b

abbrev sample : Primitives
sample = record {
  key = lit "device";
  hmac = λ k m. digest 32 7;
  encode = unary;
  decode = λ bytes. some (counted 0 bytes);
  b64encode = λ bytes. bytes;
  b64decode = λ text. some text;
}

digest-AreBytes : (n : ℕ) → AreBytes (digest n 7)
digest-AreBytes zero = tt
digest-AreBytes (suc n) = (omega arith, digest-AreBytes n)

sample-AreDocumented : AreDocumented sample
sample-AreDocumented = record {
  length-hmac = λ k m. refl;
  hmac-AreBytes = λ k m. digest-AreBytes 32;
  encode-AreBytes = unary-AreBytes;
  decode-encode = λ text. ap some (counted-unary text);
  b64decode-nil = refl;
  b64decode-b64encode = λ bytes. refl;
}

abbrev nonce : Bytes
nonce = digest 16 5

decrypt-encrypt_example : decrypt sample (encrypt sample nonce (1 ∷ 2 ∷ [])) ≡ ok (1 ∷ 2 ∷ [])
decrypt-encrypt_example = decrypt-encrypt sample sample-AreDocumented nonce refl (1 ∷ 2 ∷ [])

decrypt-IsAuthentic_example :
    (raw : Bytes) × (sample.b64decode (encrypt sample nonce (1 ∷ [])) ≡ some raw)
    × IsAuthentic sample raw (1 ∷ [])
decrypt-IsAuthentic_example =
    decrypt-IsAuthentic sample sample-AreDocumented (encrypt sample nonce (1 ∷ [])) (1 ∷ [])
      (decrypt-encrypt sample sample-AreDocumented nonce refl (1 ∷ []))

cipher_store-IsLawful_example : IsLawful (cipher_store sample (λ seed. nonce))
cipher_store-IsLawful_example =
    cipher_store-IsLawful sample (λ seed. nonce) sample-AreDocumented (λ seed. refl)
