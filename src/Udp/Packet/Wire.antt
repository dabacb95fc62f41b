-- ===== src/Udp/Packet/Wire.antt =====
-- What is written is what is parsed.
use tunshell_mcp_agents.Prelude.{
  ℕ, zero, suc, ltb, false, [], ap, take, ◌+◌, ◌%◌, ◌≤◌, ◌<◌, ◌∷◌, ◌≡◌, refl, some, arith, length,
  drop, drop_all, replicate, append-nil, length-replicate,
}
use tunshell_mcp_agents.Udp.Bytes.{Bytes, u16_roundtrip, u32_roundtrip, copy_at}
use tunshell_mcp_agents.Udp.Packet.{
  UdpPacketType, probe, to_u8, try_from, UdpPacketHeader, parse, write, build_packet,
  udp_header_size, udp_max_payload, udp_max_packet,
}

try_from-to_u8 : (t : UdpPacketType) → try_from (to_u8 t) ≡ some t
unfolding try_from to_u8
try_from-to_u8 probe = refl
try_from-to_u8 _ = refl

-- A header in range that is written over the first seven bytes of a buffer is parsed back, and the
-- bytes behind it are those of the buffer.
pub parse-write :
    (h : UdpPacketHeader) (buf : Bytes)
    → h.sequence < 4294967296
    → h.payload_len < 65536
    → udp_header_size ≤ length buf
    → (parse (write h buf) ≡ some h)
      × (drop udp_header_size (write h buf) ≡ drop udp_header_size buf)
unfolding parse write
parse-write h (a ∷ b ∷ c ∷ d ∷ e ∷ f ∷ g ∷ rest) hs hl hb = (
  rw (try_from-to_u8 h.packet_type)
      (ground (arith, u32_roundtrip h.sequence hs, u16_roundtrip h.payload_len hl)),
  refl,
)
parse-write _ buf hs hl hb = absurd (omega arith)

parse_packet_buffer :
    (h : UdpPacketHeader) (payload buf : Bytes)
    → h.sequence < 4294967296
    → h.payload_len < 65536
    → length buf ≡ udp_header_size + length payload
    → (parse (copy_at udp_header_size payload (write h buf)) ≡ some h)
      × (drop udp_header_size (copy_at udp_header_size payload (write h buf)) ≡ payload)
unfolding parse write
parse_packet_buffer h payload (a ∷ b ∷ c ∷ d ∷ e ∷ f ∷ g ∷ rest) hs hl hb = (
  rw (try_from-to_u8 h.packet_type)
      (ground (arith, u32_roundtrip h.sequence hs, u16_roundtrip h.payload_len hl)),
  rw (drop_all (length payload) rest (omega arith)) (append-nil payload),
)
parse_packet_buffer h payload buf hs hl hb = absurd (omega arith)

-- A reliable packet of a payload that fits the length field is parsed back into its type, its
-- sequence number and its length, and the bytes behind the header are the payload.
pub parse-build_packet :
    (t : UdpPacketType) (seq : ℕ) (payload : Bytes)
    → seq < 4294967296
    → length payload < 65536
    → (parse (build_packet t seq payload)
        ≡ some (record { packet_type = t; sequence = seq; payload_len = length payload }))
      × (drop udp_header_size (build_packet t seq payload) ≡ payload)
unfolding build_packet
parse-build_packet t seq payload hs hl =
    rw (let e : length payload % 65536 ≡ length payload = omega arith in e) (
      parse_packet_buffer _ payload (replicate (udp_header_size + length payload) 0) hs hl
        (length-replicate _ 0))

-- Without the bound on the payload: its length wraps in the header.
pub parse-build_packet_any :
    (t : UdpPacketType) (seq : ℕ) (payload : Bytes)
    → seq < 4294967296
    → (parse (build_packet t seq payload)
        ≡ some (record { packet_type = t; sequence = seq; payload_len = length payload % 65536 }))
      × (drop udp_header_size (build_packet t seq payload) ≡ payload)
unfolding build_packet
parse-build_packet_any t seq payload hs =
    parse_packet_buffer _ payload (replicate (udp_header_size + length payload) 0) hs (omega arith)
      (length-replicate _ 0)

long_enough : (n : ℕ) → ltb (suc (suc (suc (suc (suc (suc (suc n))))))) udp_header_size ≡ false
long_enough n = ground arith

-- A receive buffer cuts off only payload.
pub parse-take : (buf : Bytes) → parse (take udp_max_packet buf) ≡ parse buf
unfolding parse
parse-take (a ∷ b ∷ c ∷ d ∷ e ∷ f ∷ g ∷ rest) =
    rw (long_enough (length (take udp_max_payload rest)), long_enough (length rest)) refl
parse-take [] = refl
parse-take (a ∷ []) = refl
parse-take (a ∷ b ∷ []) = refl
parse-take (a ∷ b ∷ c ∷ []) = refl
parse-take (a ∷ b ∷ c ∷ d ∷ []) = refl
parse-take (a ∷ b ∷ c ∷ d ∷ e ∷ []) = refl
parse-take (a ∷ b ∷ c ∷ d ∷ e ∷ f ∷ []) = refl

pub take_all : (n : ℕ) (xs : Bytes) → length xs ≤ n → take n xs ≡ xs
take_all zero [] h = refl
take_all zero (x ∷ xs) h = absurd (omega arith)
take_all (suc n) [] h = refl
take_all (suc n) (x ∷ xs) h = ap (λ t. x ∷ t) (take_all n xs (omega arith))

take_empty : {A : Type 0} (n : ℕ) → take {A = A} n [] ≡ []
take_empty zero = refl
take_empty (suc n) = refl

pub drop-take : (k n : ℕ) (xs : Bytes) → drop k (take (k + n) xs) ≡ take n (drop k xs)
drop-take zero n xs = let z : 0 + n ≡ n = omega arith in rw z refl
drop-take (suc k) n [] = let z : suc k + n ≡ suc (k + n) = omega arith in rw (z, take_empty n) refl
drop-take (suc k) n (x ∷ xs) =
    let z : suc k + n ≡ suc (k + n) = omega arith in rw z (drop-take k n xs)
