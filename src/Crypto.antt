-- ===== src/Crypto.antt =====
-- agentsecure/crypto/cipher.py: the encryption of secrets at rest. A byte string is the list of its
-- bytes. Parameters: the device key, HMAC-SHA256, UTF-8 and URL-safe base64 (`none` for what
-- their decoders refuse with a ValueError).
pub mod RoundTrip
pub mod Tampering
pub mod Store
use Prim.Native.Nat.{bit_xor, ◌/◌, ◌%◌, ◌^◌}
use agentsecure_community.Base.{
  ℕ, zero, suc, ◌+◌, ◌≡◌, ◌≤◌, ◌<◌, Bool, true, false, not, Option, none, some, List, [], ◌∷◌, ◌++◌,
  ◌==◌, ltb, if◌then◌else◌,
}
use agentsecure_community.Base.Lists.{length, All}
use agentsecure_community.Base.Text.{Text, lit, text_eq, take_text, drop_text}
use agentsecure_community.Base.Exec.{Result, ok, raised, value_error}

abbrev pub Bytes : Type 0
Bytes = List ℕ

abbrev pub AreBytes : Bytes → Type 0
AreBytes = All (λ b. b < 256)

abbrev pub version : Bytes
version = lit "AGENTSECURE1"

-- `_xor`; `zip` stops with the shorter argument.
unfoldable pub xor : Bytes → Bytes → Bytes
xor [] right = []
xor (a ∷ left) [] = []
xor (a ∷ left) (b ∷ right) = bit_xor a b ∷ xor left right

-- `counter.to_bytes(8, "big")`, for the counters below 2 ^ 64.
unfoldable pub counter_bytes : ℕ → Bytes
counter_bytes n =
    n / 2 ^ 56 % 256
    ∷ n / 2 ^ 48 % 256
    ∷ n / 2 ^ 40 % 256
    ∷ n / 2 ^ 32 % 256
    ∷ n / 2 ^ 24 % 256
    ∷ n / 2 ^ 16 % 256
    ∷ n / 2 ^ 8 % 256
    ∷ n % 256
    ∷ []

-- What the cipher takes from the standard library.
pub record Primitives : Type 0 where
  pub key : Bytes
  pub hmac : Bytes → Bytes → Bytes
  pub encode : Text → Bytes
  pub decode : Bytes → Option Text
  pub b64encode : Bytes → Text
  pub b64decode : Text → Option Bytes

-- What is documented of it: a digest has 32 bytes, and the decoders undo the encoders.
pub record AreDocumented (p : Primitives) : Type 0 where
  pub length-hmac : (k m : Bytes) → length (p.hmac k m) ≡ 32
  pub hmac-AreBytes : (k m : Bytes) → AreBytes (p.hmac k m)
  pub encode-AreBytes : (text : Text) → AreBytes (p.encode text)
  pub decode-encode : (text : Text) → p.decode (p.encode text) ≡ some text
  pub b64decode-nil : p.b64decode [] ≡ some []
  pub b64decode-b64encode : (bytes : Bytes) → p.b64decode (p.b64encode bytes) ≡ some bytes

module _ (p : Primitives) where
  -- `_mac`
  unfoldable pub mac : Bytes → Bytes → Bytes
  mac nonce ciphertext = p.hmac p.key (lit "mac" ++ (nonce ++ ciphertext))

  -- The loop of `_keystream`, on fuel.
  unfoldable pub stream_loop : ℕ → Bytes → ℕ → ℕ → Bytes → Bytes
  stream_loop zero nonce size counter output = output
  stream_loop (suc fuel) nonce size counter output =
      let more =
        stream_loop fuel nonce size (counter + 1)
          (output ++ p.hmac p.key (lit "stream" ++ (nonce ++ counter_bytes counter))) in
      if ltb (length output) size then more else output

  -- `_keystream`; each round adds a byte or more, so the size is fuel enough.
  unfoldable pub keystream : Bytes → ℕ → Bytes
  unfolding stream_loop counter_bytes
  keystream nonce size = take_text size (stream_loop size nonce size 0 [])

  -- `encrypt`, with the nonce that `os.urandom` draws.
  unfoldable pub encrypt : Bytes → Text → Text
  unfolding keystream mac xor
  encrypt nonce plaintext =
      let plaintext_bytes = p.encode plaintext in
      let ciphertext = xor plaintext_bytes (keystream nonce (length plaintext_bytes)) in
      p.b64encode (version ++ (nonce ++ (mac nonce ciphertext ++ ciphertext)))

  abbrev pub decoded : Option Text → Result Text
  decoded none = raised (value_error (lit "invalid utf-8"))
  decoded (some text) = ok text

  -- `decrypt` once the text is decoded.
  unfoldable pub decrypt_raw : Bytes → Result Text
  decrypt_raw raw =
      let nonce = take_text 16 (drop_text 12 raw) in
      let found = take_text 32 (drop_text 28 raw) in
      let encrypted = drop_text 60 raw in
      if not (take_text 12 raw == version)
      then raised (value_error (lit "unsupported secret ciphertext version"))
      else if not (found == mac nonce encrypted)
      then raised (value_error (lit "secret ciphertext authentication failed"))
      else decoded (p.decode (xor encrypted (keystream nonce (length encrypted))))

  unfoldable pub decrypt : Text → Result Text
  unfolding decrypt_raw
  decrypt ciphertext = elim (p.b64decode ciphertext) [
    | none ↦ raised (value_error (lit "invalid base64"))
    | some raw ↦ decrypt_raw raw
  ]
