-- ===== src/Crypto/Examples.antt =====
-- A cipher that appends a tag of zeros, and runs of the theorems on it.
use tunshell_mcp_agents.Prelude.{
  ℕ, ◌+◌, ◌≤◌, ◌≡◌, ◌≢◌, refl, [], ◌∷◌, ◌++◌, Option, inr, none, some, length, length-append, arith,
  subst,
}
use tunshell_mcp_agents.Safety.Words.{text}
use tunshell_mcp_agents.Udp.Bytes.{Bytes}
use tunshell_mcp_agents.Crypto.{
  Primitives, Cipher, room_key, encrypt_bytes, encrypt_str, decrypt_str, transport,
}
use tunshell_mcp_agents.Crypto.Envelope.{IsLawful, decrypt-encrypt}
use tunshell_mcp_agents.Crypto.RoomKey.{room_key-collides}

abbrev zero_tag : Bytes
zero_tag = 0 ∷ 0 ∷ 0 ∷ 0 ∷ 0 ∷ 0 ∷ 0 ∷ 0 ∷ 0 ∷ 0 ∷ 0 ∷ 0 ∷ 0 ∷ 0 ∷ 0 ∷ 0 ∷ []

-- The tag stands in front here, so that opening drops it.
unfoldable toy_encrypt : Bytes → Bytes → Bytes → Option Bytes
toy_encrypt key nonce plaintext = some (zero_tag ++ plaintext)

unfoldable toy_decrypt : Bytes → Bytes → Bytes → Option Bytes
toy_decrypt key nonce
      (t0 ∷ t1 ∷ t2 ∷ t3 ∷ t4 ∷ t5 ∷ t6 ∷ t7 ∷ t8 ∷ t9 ∷ t10 ∷ t11 ∷ t12 ∷ t13 ∷ t14 ∷ t15 ∷ p) =
    some p
toy_decrypt key nonce _ = none

abbrev toy_draw : ℕ → Bytes
toy_draw call = call ∷ 0 ∷ 0 ∷ 0 ∷ 0 ∷ 0 ∷ 0 ∷ 0 ∷ 0 ∷ 0 ∷ 0 ∷ 0 ∷ []

abbrev toy : Primitives
toy = record {
  sha256 = λ b. b;
  aead_encrypt = toy_encrypt;
  aead_decrypt = toy_decrypt;
  base64_encode = λ b. b;
  base64_decode = λ s. some s;
  to_utf8 = λ s. s;
  from_utf8 = λ b. some b;
  draw = toy_draw;
}

toy-opens :
    (key nonce plaintext c : Bytes)
    → toy_encrypt key nonce plaintext ≡ some c
    → toy_decrypt key nonce c ≡ some plaintext
unfolding toy_encrypt toy_decrypt
toy-opens key nonce plaintext c h = cc

toy-tagged :
    (key nonce plaintext c : Bytes) → toy_encrypt key nonce plaintext ≡ some c → 16 ≤ length c
unfolding toy_encrypt
toy-tagged key nonce plaintext c h =
    let made : zero_tag ++ plaintext ≡ c = cc in
    let long : length (zero_tag ++ plaintext) ≡ 16 + length plaintext =
      length-append zero_tag plaintext in
    subst (λ t. 16 ≤ length t) made (omega (arith, long))

toy-IsLawful : IsLawful toy
toy-IsLawful = record {
  opens = toy-opens;
  tagged = toy-tagged;
  drawn = λ call. refl;
  base64 = λ raw. refl;
  utf8 = λ s. refl;
}

abbrev toy_cipher : Cipher
toy_cipher = record { key = 7 ∷ [] }

decrypt-encrypt_example :
    ((transport toy toy_cipher).decrypt_bytes (toy_draw 1 ++ zero_tag ++ 5 ∷ 6 ∷ [])
      ≡ some (5 ∷ 6 ∷ []))
    × ((toy_draw 1 ++ zero_tag ++ 5 ∷ 6 ∷ []) ≢ [])
    × (decrypt_str toy toy_cipher (toy_draw 1 ++ zero_tag ++ text "hi") ≡ inr (text "hi"))
unfolding encrypt_bytes encrypt_str toy_encrypt
decrypt-encrypt_example =
    decrypt-encrypt toy toy-IsLawful toy_cipher 1 (5 ∷ 6 ∷ [])
      (toy_draw 1 ++ zero_tag ++ 5 ∷ 6 ∷ []) (text "hi") (toy_draw 1 ++ zero_tag ++ text "hi") refl
      refl

room_key-collides_example :
    room_key toy (text "fleet:a") (text "b") ≡ room_key toy (text "fleet") (text "a:b")
room_key-collides_example = room_key-collides toy (text "fleet") (text "a") (text "b")
