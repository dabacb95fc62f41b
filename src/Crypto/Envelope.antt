-- ===== src/Crypto/Envelope.antt =====
-- What was encrypted is decrypted, as bytes, as text and for the UDP channel.
use tunshell_mcp_agents.Prelude.{
  ℕ, ◌+◌, ◌≤◌, ◌≡◌, ◌≢◌, refl, ap, [], ◌∷◌, ◌++◌, Option, ◌⊎◌, inl, inr, none, some, false, ltb,
  length, take, drop, length-append, arith, subst,
}
use tunshell_mcp_agents.Safety.Words.{Text}
use tunshell_mcp_agents.Udp.Bytes.{Bytes}
use tunshell_mcp_agents.Crypto.{
  Primitives, CryptoError, nonce_len, tag_len, Cipher, envelope, encrypt_bytes, decrypt_bytes,
  encoded, encrypt_str, as_text, decrypt_decoded, decrypt_str, transport,
}

-- What the library functions promise: AES-GCM opens what it sealed and appends a tag, a nonce has 12
-- bytes, base64 and UTF-8 are read back.
pub record IsLawful (lib : Primitives) : Type 0 where
  pub opens :
      (key nonce plaintext c : Bytes)
      → lib.aead_encrypt key nonce plaintext ≡ some c
      → lib.aead_decrypt key nonce c ≡ some plaintext
  pub tagged :
      (key nonce plaintext c : Bytes)
      → lib.aead_encrypt key nonce plaintext ≡ some c
      → 16 ≤ length c
  pub drawn : (call : ℕ) → length (lib.draw call) ≡ 12
  pub base64 : (raw : Bytes) → lib.base64_decode (lib.base64_encode raw) ≡ some raw
  pub utf8 : (s : Text) → lib.from_utf8 (lib.to_utf8 s) ≡ some s

take-append : (xs ys : Bytes) → take (length xs) (xs ++ ys) ≡ xs
take-append [] ys = refl
take-append (x ∷ xs) ys = ap (λ t. x ∷ t) (take-append xs ys)

drop-append : (xs ys : Bytes) → drop (length xs) (xs ++ ys) ≡ ys
drop-append [] ys = refl
drop-append (x ∷ xs) ys = drop-append xs ys

module _ (lib : Primitives) (laws : IsLawful lib) (cipher : Cipher) where
  opens_envelope :
      (call : ℕ) (plaintext c : Bytes)
      → lib.aead_encrypt cipher.key (lib.draw call) plaintext ≡ some c
      → decrypt_bytes lib cipher (lib.draw call ++ c) ≡ inr plaintext
  unfolding decrypt_bytes
  opens_envelope call plaintext c h =
      let nonce = lib.draw call in
      let n = laws.drawn call in
      let long : ltb (length (nonce ++ c)) (nonce_len + tag_len) ≡ false =
        ground (arith, length-append nonce c, n, laws.tagged cipher.key nonce plaintext c h) in
      let front : take 12 (nonce ++ c) ≡ nonce =
        subst (λ k. take k (nonce ++ c) ≡ nonce) n (take-append nonce c) in
      let back : drop 12 (nonce ++ c) ≡ c =
        subst (λ k. drop k (nonce ++ c) ≡ c) n (drop-append nonce c) in
      rw (long, front, back, laws.opens cipher.key nonce plaintext c h) refl

  nonempty_envelope : (call : ℕ) (c : Bytes) → lib.draw call ++ c ≢ []
  nonempty_envelope call c empty =
      ground (arith, length-append (lib.draw call) c, laws.drawn call, ap (λ t. length t) empty)

  envelope-opened :
      (call : ℕ) (plaintext c : Bytes) (o : Option Bytes)
      → lib.aead_encrypt cipher.key (lib.draw call) plaintext ≡ o
      → envelope (lib.draw call) o ≡ inr c
      → (decrypt_bytes lib cipher c ≡ inr plaintext) × (c ≢ [])
  envelope-opened call plaintext c none e h = absurd cc
  envelope-opened call plaintext c (some c') e h =
      let made : lib.draw call ++ c' ≡ c = cc in
      subst (λ t. (decrypt_bytes lib cipher t ≡ inr plaintext) × (t ≢ [])) made
        (opens_envelope call plaintext c' e, nonempty_envelope call c')

  encrypt_bytes-opened :
      (call : ℕ) (plaintext c : Bytes)
      → encrypt_bytes lib cipher call plaintext ≡ inr c
      → (decrypt_bytes lib cipher c ≡ inr plaintext) × (c ≢ [])
  unfolding encrypt_bytes
  encrypt_bytes-opened call plaintext c h = envelope-opened call plaintext c _ refl h

  encoded-read :
      (call : ℕ) (s e : Text) (o : CryptoError ⊎ Bytes)
      → encrypt_bytes lib cipher call (lib.to_utf8 s) ≡ o
      → encoded lib o ≡ inr e
      → decrypt_str lib cipher e ≡ inr s
  unfolding decrypt_str decrypt_decoded as_text
  encoded-read call s e (inl error) made h = absurd cc
  encoded-read call s e (inr raw) made h =
      let written : lib.base64_encode raw ≡ e = cc in
      let opened = (encrypt_bytes-opened call (lib.to_utf8 s) raw made).0 in
      rw (← written, laws.base64 raw, opened, laws.utf8 s) refl

  -- With library functions that keep their promises, what `encrypt_bytes` makes is not empty and is
  -- opened by `decrypt_bytes`, whatever the nonce drawn; the same cipher, handed to a UDP channel,
  -- opens what it seals there; and `decrypt_str` reads what `encrypt_str` wrote.
  pub decrypt-encrypt :
      (call : ℕ) (plaintext c : Bytes) (s e : Text)
      → encrypt_bytes lib cipher call plaintext ≡ inr c
      → encrypt_str lib cipher call s ≡ inr e
      → ((transport lib cipher).decrypt_bytes c ≡ some plaintext)
        × (c ≢ [])
        × (decrypt_str lib cipher e ≡ inr s)
  unfolding transport encrypt_str
  decrypt-encrypt call plaintext c s e h k =
      let sealed = encrypt_bytes-opened call plaintext c h in
      (rw (sealed.0) refl, sealed.1, encoded-read call s e _ refl k)
