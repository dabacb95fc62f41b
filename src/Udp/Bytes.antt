-- ===== src/Udp/Bytes.antt =====
-- Byte buffers: big-endian words (`to_be_bytes`, `from_be_bytes`), `copy_from_slice`, `chunks`.
use tunshell_mcp_agents.Prelude.{
  ℕ, zero, suc, ◌+◌, ◌*◌, ◌/◌, ◌%◌, ◌≤◌, ◌<◌, List, [], ◌∷◌, ◌++◌, ◌≡◌, refl, arith, length, take,
  drop, concat, length-drop, take-append-drop,
}

abbrev pub Bytes : Type 0
Bytes = List ℕ

abbrev pub to_be_u16 : ℕ → Bytes
to_be_u16 n = n / 256 % 256 ∷ n % 256 ∷ []

abbrev pub to_be_u32 : ℕ → Bytes
to_be_u32 n = n / 16777216 % 256 ∷ n / 65536 % 256 ∷ n / 256 % 256 ∷ n % 256 ∷ []

abbrev pub from_be_u16 : ℕ → ℕ → ℕ
from_be_u16 a b = a * 256 + b

abbrev pub from_be_u32 : ℕ → ℕ → ℕ → ℕ → ℕ
from_be_u32 a b c d = a * 16777216 + b * 65536 + c * 256 + d

-- `buf[i]`, read below the length only.
abbrev pub byte_at : Bytes → ℕ → ℕ
byte_at [] i = 0
byte_at (x ∷ xs) zero = x
byte_at (x ∷ xs) (suc i) = byte_at xs i

-- `buf[at..at + src.len()].copy_from_slice(src)`, in a buffer that is long enough.
abbrev pub copy_at : ℕ → Bytes → Bytes → Bytes
copy_at zero src buf = src ++ drop (length src) buf
copy_at (suc at) src [] = []
copy_at (suc at) src (x ∷ buf) = x ∷ copy_at at src buf

pub u16_roundtrip : (n : ℕ) → n < 65536 → from_be_u16 (n / 256 % 256) (n % 256) ≡ n
u16_roundtrip n h = omega arith

pub u32_roundtrip :
    (n : ℕ)
    → n < 4294967296
    → from_be_u32 (n / 16777216 % 256) (n / 65536 % 256) (n / 256 % 256) (n % 256) ≡ n
u32_roundtrip n h = omega arith

-- `slice::chunks(size)`: the fuel is the length of what is left.
unfoldable pub chunks_from : ℕ → ℕ → Bytes → List Bytes
chunks_from zero size body = []
chunks_from (suc fuel) size [] = []
chunks_from (suc fuel) size (b ∷ body) =
    take size (b ∷ body) ∷ chunks_from fuel size (drop size (b ∷ body))

unfoldable pub chunks : ℕ → Bytes → List Bytes
chunks size body = chunks_from (length body) size body

concat-chunks_from :
    (fuel size : ℕ) (body : Bytes)
    → length body ≤ fuel
    → 0 < size
    → concat (chunks_from fuel size body) ≡ body
unfolding chunks_from
concat-chunks_from zero size [] h k = refl
concat-chunks_from zero size (b ∷ body) h k = absurd (omega arith)
concat-chunks_from (suc fuel) size [] h k = refl
concat-chunks_from (suc fuel) size (b ∷ body) h k =
    rw
      (concat-chunks_from fuel size (drop size (b ∷ body))
        (omega (arith, length-drop size (b ∷ body))) k)
      (take-append-drop size (b ∷ body))

-- The chunks make up the body.
pub concat-chunks : (size : ℕ) (body : Bytes) → 0 < size → concat (chunks size body) ≡ body
unfolding chunks
concat-chunks size body h = concat-chunks_from (length body) size body (omega arith) h

length-chunks_from :
    (fuel : ℕ) (body : Bytes)
    → length body ≤ fuel
    → length (chunks_from fuel 1192 body) ≡ (length body + 1191) / 1192
unfolding chunks_from
length-chunks_from zero [] h = refl
length-chunks_from zero (b ∷ body) h = absurd (omega arith)
length-chunks_from (suc fuel) [] h = refl
length-chunks_from (suc fuel) (b ∷ body) h =
    let shorter = length-drop 1192 (b ∷ body) in
    omega (arith, shorter, length-chunks_from fuel (drop 1192 (b ∷ body)) (omega (arith, shorter)))

-- As many chunks as `div_ceil` says.
pub length-chunks : (body : Bytes) → length (chunks 1192 body) ≡ (length body + 1191) / 1192
unfolding chunks
length-chunks body = length-chunks_from (length body) body (omega arith)
