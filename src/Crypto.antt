-- ===== src/Crypto.antt =====
-- crates/shared/src/crypto.rs: the envelope of the end-to-end encryption and the key of a room.
-- SHA-256, AES-GCM, base64, UTF-8 and the random numbers are parameters; a text is its characters.
pub mod Envelope
pub mod RoomKey
mod Examples
use tunshell_mcp_agents.Prelude.{
  ℕ, ◌/◌, ◌%◌, ◌+◌, List, [], ◌∷◌, ◌++◌, Option, ◌⊎◌, inl, inr, none, some, ltb, if◌then◌else◌,
  length, take, drop, concat, map,
}
use tunshell_mcp_agents.Safety.Words.{Text, text}
use tunshell_mcp_agents.Udp.Bytes.{Bytes}
use tunshell_mcp_agents.Udp.Channel.State

-- The third-party functions, `none` for an error; `draw` is the nonce that the generator fills for a call.
pub record Primitives : Type 0 where
  pub sha256 : Bytes → Bytes
  pub aead_encrypt : Bytes → Bytes → Bytes → Option Bytes
  pub aead_decrypt : Bytes → Bytes → Bytes → Option Bytes
  pub base64_encode : Bytes → Text
  pub base64_decode : Text → Option Bytes
  pub to_utf8 : Text → Bytes
  pub from_utf8 : Bytes → Option Text
  pub draw : ℕ → Bytes

abbrev pub nonce_len : ℕ
nonce_len = 12

abbrev pub tag_len : ℕ
tag_len = 16

pub data CryptoError : Type 0 where
  encrypt decrypt encoding too_short : CryptoError

pub record Cipher : Type 0 where
  pub key : Bytes

abbrev pub hex_digit : ℕ → ℕ
hex_digit d = if ltb d 10 then 48 + d else 87 + d

-- `{:02x}`
abbrev pub hex_byte : ℕ → Text
hex_byte b = hex_digit (b / 16) ∷ hex_digit (b % 16) ∷ []

-- What is hashed for a room: `remote-agents-room/v1:{room}:{token}`.
unfoldable pub room_input : Text → Text → Text
room_input room token = text "remote-agents-room/v1:" ++ (room ++ 58 ∷ token)

-- `map_err(|_| CryptoError::Decrypt)`
abbrev pub or_decrypt : Option (List ℕ) → CryptoError ⊎ List ℕ
or_decrypt none = inl decrypt
or_decrypt (some x) = inr x

-- `Result::ok`
abbrev pub result_ok : CryptoError ⊎ Bytes → Option Bytes
result_ok (inl e) = none
result_ok (inr x) = some x

abbrev pub envelope : Bytes → Option Bytes → CryptoError ⊎ Bytes
envelope nonce none = inl encrypt
envelope nonce (some ciphertext) = inr (nonce ++ ciphertext)

module _ (lib : Primitives) where
  unfoldable pub room_key : Text → Text → Text
  unfolding room_input
  room_key room token = concat (map hex_byte (lib.sha256 (lib.to_utf8 (room_input room token))))

  unfoldable pub from_passphrase : Text → Cipher
  from_passphrase passphrase = record { key = take 32 (lib.sha256 (lib.to_utf8 passphrase)) }

  abbrev pub token_passphrase : Text → Text
  token_passphrase token = text "remote-agents/v1:" ++ token

  unfoldable pub for_transport : Text → Option Text → Cipher
  unfolding from_passphrase
  for_transport token none = from_passphrase (token_passphrase token)
  for_transport token (some []) = from_passphrase (token_passphrase token)
  for_transport token (some (c ∷ k)) = from_passphrase (c ∷ k)

  -- The call number stands for the state of the random number generator.
  unfoldable pub encrypt_bytes : Cipher → ℕ → Bytes → CryptoError ⊎ Bytes
  encrypt_bytes cipher call plaintext =
      let nonce = lib.draw call in envelope nonce (lib.aead_encrypt cipher.key nonce plaintext)

  unfoldable pub decrypt_bytes : Cipher → Bytes → CryptoError ⊎ Bytes
  decrypt_bytes cipher raw =
      if ltb (length raw) (nonce_len + tag_len)
      then inl too_short
      else or_decrypt (lib.aead_decrypt cipher.key (take nonce_len raw) (drop nonce_len raw))

  abbrev pub encoded : CryptoError ⊎ Bytes → CryptoError ⊎ Text
  encoded (inl e) = inl e
  encoded (inr raw) = inr (lib.base64_encode raw)

  unfoldable pub encrypt_str : Cipher → ℕ → Text → CryptoError ⊎ Text
  unfolding encrypt_bytes
  encrypt_str cipher call s = encoded (encrypt_bytes cipher call (lib.to_utf8 s))

  unfoldable pub as_text : CryptoError ⊎ Bytes → CryptoError ⊎ Text
  as_text (inl e) = inl e
  as_text (inr bytes) = or_decrypt (lib.from_utf8 bytes)

  unfoldable pub decrypt_decoded : Cipher → Option Bytes → CryptoError ⊎ Bytes
  unfolding decrypt_bytes
  decrypt_decoded cipher none = inl encoding
  decrypt_decoded cipher (some raw) = decrypt_bytes cipher raw

  unfoldable pub decrypt_str : Cipher → Text → CryptoError ⊎ Text
  unfolding decrypt_decoded as_text
  decrypt_str cipher s = as_text (decrypt_decoded cipher (lib.base64_decode s))

  -- The cipher that a UDP channel is given.
  unfoldable pub transport : Cipher → State.Cipher
  unfolding encrypt_bytes decrypt_bytes
  transport cipher = record {
    encrypt_bytes = λ call plaintext. result_ok (encrypt_bytes cipher call plaintext);
    decrypt_bytes = λ raw. result_ok (decrypt_bytes cipher raw);
  }
