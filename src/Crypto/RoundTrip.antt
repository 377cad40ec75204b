-- ===== src/Crypto/RoundTrip.antt =====
-- agentsecure/crypto/cipher.py: decryption undoes encryption.
use Prim.Native.Nat.{bit_xor}
use agentsecure_community.Base.{
  ℕ, zero, suc, ◌+◌, ◌≡◌, ◌≤◌, ◌<◌, refl, sym, ap, ◌∙◌, Bool, true, ◌&&◌, [], ◌∷◌, ◌++◌, arith,
  nat_beq, ltb, inl, inr, Bool-cases,
}
use agentsecure_community.Base.Lists.{length, length-append, All-append}
use agentsecure_community.Base.Text.{
  Text, lit, text_eq, take_text, drop_text, take-append, drop-append,
}
use agentsecure_community.Base.Exec.{ok}
use agentsecure_community.Crypto.{
  Bytes, AreBytes, version, counter_bytes, xor, Primitives, AreDocumented, mac, stream_loop,
  keystream, encrypt, decrypt_raw, decrypt,
}

-- Every pair of bytes is checked by evaluation.
all_below : ℕ → (ℕ → Bool) → Bool
all_below zero test = true
all_below (suc n) test = test n && all_below n test

all_below_sound :
    (n : ℕ) (test : ℕ → Bool) (x : ℕ) → all_below n test ≡ true → x < n → test x ≡ true
unfolding all_below
all_below_sound zero test x h lt = absurd (omega arith)
all_below_sound (suc n) test x h lt = ground (arith, all_below_sound n test x)

abbrev undoes : ℕ → ℕ → Bool
undoes a b = nat_beq (bit_xor (bit_xor a b) b) a

xor_table : all_below 256 (λ a. all_below 256 (undoes a)) ≡ true
unfolding all_below
xor_table = refl

bit_xor_twice : (a b : ℕ) → a < 256 → b < 256 → bit_xor (bit_xor a b) b ≡ a
bit_xor_twice a b p q = nat_beq_sound _ a (
    all_below_sound 256 (undoes a) b
      (all_below_sound 256 (λ a. all_below 256 (undoes a)) a xor_table p) q)
  where
    nat_beq_sound : (a b : ℕ) → nat_beq a b ≡ true → a ≡ b
    nat_beq_sound a b h = ground arith

xor_twice :
    (plain stream : Bytes)
    → AreBytes plain
    → AreBytes stream
    → length plain ≤ length stream
    → xor (xor plain stream) stream ≡ plain
unfolding xor
xor_twice [] stream p s h = refl
xor_twice (a ∷ plain) [] p s h = absurd (omega (arith, h))
xor_twice (a ∷ plain) (b ∷ stream) (pa, p) (sb, s) h =
    ground (arith, bit_xor_twice a b pa sb, xor_twice plain stream p s (omega (arith, h)))

length-xor :
    (plain stream : Bytes) → length plain ≤ length stream → length (xor plain stream) ≡ length plain
unfolding xor
length-xor [] stream h = refl
length-xor (a ∷ plain) [] h = absurd (omega (arith, h))
length-xor (a ∷ plain) (b ∷ stream) h = omega (arith, length-xor plain stream (omega (arith, h)))

pub length-take_text : (n : ℕ) (s : Text) → n ≤ length s → length (take_text n s) ≡ n
length-take_text zero s h = refl
length-take_text (suc n) [] h = absurd (omega (arith, h))
length-take_text (suc n) (c ∷ s) h = omega (arith, length-take_text n s (omega (arith, h)))

AreBytes-take_text : (n : ℕ) (s : Text) → AreBytes s → AreBytes (take_text n s)
AreBytes-take_text zero s h = tt
AreBytes-take_text (suc n) [] h = tt
AreBytes-take_text (suc n) (c ∷ s) (p, h) = (p, AreBytes-take_text n s h)

module _ (p : Primitives) (documented : AreDocumented p) (nonce : Bytes) where
  -- With fuel for each byte that is still missing, the loop ends with as many bytes as it wants.
  stream_loop_bounds :
      (fuel size counter : ℕ) (output : Bytes)
      → size ≤ length output + fuel
      → size ≤ length (stream_loop p fuel nonce size counter output)
  unfolding stream_loop
  stream_loop_bounds zero size counter output h = omega (arith, h)
  stream_loop_bounds (suc fuel) size counter output h =
      let digest = p.hmac p.key (lit "stream" ++ (nonce ++ counter_bytes counter)) in
      ground (
        arith,
        length-append output digest,
        documented.length-hmac p.key (lit "stream" ++ (nonce ++ counter_bytes counter)),
        stream_loop_bounds fuel size (counter + 1) (output ++ digest),
      )

  stream_loop-AreBytes :
      (fuel size counter : ℕ) (output : Bytes)
      → AreBytes output
      → AreBytes (stream_loop p fuel nonce size counter output)
  unfolding stream_loop
  stream_loop-AreBytes zero size counter output h = h
  stream_loop-AreBytes (suc fuel) size counter output h =
      elim (Bool-cases (ltb (length output) size)) [
        | inl e ↦ rw e (
            stream_loop-AreBytes fuel size (counter + 1) _
              (All-append (λ b. b < 256) output _ h (documented.hmac-AreBytes p.key _)))
        | inr e ↦ rw e h
      ]

  -- The keystream is as long as it is asked for: the loop that draws it ends within its fuel.
  pub length-keystream : (size : ℕ) → length (keystream p nonce size) ≡ size
  unfolding keystream
  length-keystream size =
      length-take_text size (stream_loop p size nonce size 0 [])
        (stream_loop_bounds size size 0 [] (omega arith))

  keystream-AreBytes : (size : ℕ) → AreBytes (keystream p nonce size)
  unfolding keystream
  keystream-AreBytes size =
      AreBytes-take_text size (stream_loop p size nonce size 0 [])
        (stream_loop-AreBytes size size 0 [] tt)

drop_text-nil : (n : ℕ) → drop_text n [] ≡ []
drop_text-nil zero = refl
drop_text-nil (suc n) = refl

pub drop_text_add : (m n : ℕ) (s : Text) → drop_text (m + n) s ≡ drop_text n (drop_text m s)
drop_text_add zero n s = ground arith
drop_text_add (suc m) n [] = drop_text-nil (suc m + n) ∙ sym (drop_text-nil n)
drop_text_add (suc m) n (c ∷ s) =
    let e : suc m + n ≡ suc (m + n) = omega arith in rw e (drop_text_add m n s)

length-version : length version ≡ 12
unfolding lit
length-version = refl

-- The parts of an encrypted message, from its layout.
pub drop-layout :
    (a b c d : Text) (k l m : ℕ)
    → length a ≡ k
    → length b ≡ l
    → length c ≡ m
    → (take_text k (a ++ (b ++ (c ++ d))) ≡ a)
      × (take_text l (drop_text k (a ++ (b ++ (c ++ d)))) ≡ b)
      × (take_text m (drop_text (k + l) (a ++ (b ++ (c ++ d)))) ≡ c)
      × (drop_text (k + l + m) (a ++ (b ++ (c ++ d))) ≡ d)
drop-layout a b c d k l m p q r =
    let first = drop-append a (b ++ (c ++ d)) k p in
    let second =
      drop_text_add k l (a ++ (b ++ (c ++ d)))
      ∙ ap (drop_text l) first
      ∙ drop-append b (c ++ d) l q in
    (
      take-append a (b ++ (c ++ d)) k p,
      ap (take_text l) first ∙ take-append b (c ++ d) l q,
      ap (take_text m) second ∙ take-append c d m r,
      drop_text_add (k + l) m (a ++ (b ++ (c ++ d)))
          ∙ ap (drop_text m) second
          ∙ drop-append c d m r,
    )

module _ (p : Primitives) (documented : AreDocumented p) (nonce : Bytes) (drawn : length nonce ≡ 16)
    (plaintext : Text) where
  abbrev plain : Bytes
  plain = p.encode plaintext

  abbrev hidden : Bytes
  hidden = xor plain (keystream p nonce (length plain))

  abbrev stream_fits : length plain ≤ length (keystream p nonce (length plain))
  stream_fits = omega (arith, length-keystream p documented nonce (length plain))

  length-hidden : length hidden ≡ length plain
  length-hidden = length-xor plain (keystream p nonce (length plain)) stream_fits

  revealed : xor hidden (keystream p nonce (length hidden)) ≡ plain
  revealed = rw length-hidden (
      xor_twice plain (keystream p nonce (length plain)) (documented.encode-AreBytes plaintext)
        (keystream-AreBytes p documented nonce (length plain)) stream_fits)

  length-mac : (ciphertext : Bytes) → length (mac p nonce ciphertext) ≡ 32
  unfolding mac
  length-mac ciphertext = documented.length-hmac p.key _

  decrypt_raw-layout :
      decrypt_raw p (version ++ (nonce ++ (mac p nonce hidden ++ hidden))) ≡ ok plaintext
  unfolding decrypt_raw
  decrypt_raw-layout =
      let (a, b, c, d) =
        drop-layout version nonce (mac p nonce hidden) hidden 12 16 32 length-version drawn
          (length-mac hidden) in
      ground (arith, a, b, c, d, revealed, documented.decode-encode plaintext)

  -- What is encrypted under a nonce of 16 bytes decrypts to the same text, whatever its length.
  pub decrypt-encrypt : decrypt p (encrypt p nonce plaintext) ≡ ok plaintext
  unfolding decrypt encrypt
  decrypt-encrypt =
      rw
        (
          documented.b64decode-b64encode (version ++ (nonce ++ (mac p nonce hidden ++ hidden))),
          decrypt,
        )
        decrypt_raw-layout
