-- ===== src/Transfer/Slices/Positions.antt =====
-- Files position by position: what a write at an offset and a cut leave where.
use tunshell_mcp_agents.Prelude.{
  ℕ, zero, suc, ◌+◌, ◌-◌, ◌≤◌, ◌<◌, ◌≡◌, refl, ◌∙◌, subst, [], ◌∷◌, ◌++◌, none, some, ltb, length,
  take, drop, length-drop, length-take, get_elem?, arith, Bool-cases, inl, inr, ◌⊎◌,
}
use tunshell_mcp_agents.Udp.Bytes.{Bytes}
use tunshell_mcp_agents.Transfer.Slices.{read_slice, write_at, write_all, set_len}

get_elem?-append_left :
    (xs ys : Bytes) (i : ℕ) → i < length xs → get_elem? (xs ++ ys) i ≡ get_elem? xs i
get_elem?-append_left [] ys i h = absurd (omega arith)
get_elem?-append_left (x ∷ xs) ys zero h = refl
get_elem?-append_left (x ∷ xs) ys (suc i) h = get_elem?-append_left xs ys i (omega arith)

get_elem?-append_right :
    (xs file : Bytes) (i : ℕ)
    → length xs ≤ i
    → get_elem? (xs ++ drop (length xs) file) i ≡ get_elem? file i
get_elem?-append_right [] file i h = refl
get_elem?-append_right (x ∷ xs) file zero h = absurd (omega arith)
get_elem?-append_right (x ∷ xs) (b ∷ file) (suc i) h =
    get_elem?-append_right xs file i (omega arith)
get_elem?-append_right (x ∷ xs) [] (suc i) h = beyond xs i (omega arith)
  where
    beyond : (ys : Bytes) (j : ℕ) → length ys ≤ j → get_elem? (ys ++ []) j ≡ none
    beyond [] j h = refl
    beyond (y ∷ ys) zero h = absurd (omega arith)
    beyond (y ∷ ys) (suc j) h = beyond ys j (omega arith)

get_elem?-write_at_inside :
    (offset : ℕ) (bytes file : Bytes) (i : ℕ)
    → i < length bytes
    → get_elem? (write_at offset bytes file) (offset + i) ≡ get_elem? bytes i
unfolding write_at
get_elem?-write_at_inside zero bytes file i h =
    let z : 0 + i ≡ i = omega arith in
    rw z (get_elem?-append_left bytes (drop (length bytes) file) i h)
get_elem?-write_at_inside (suc offset) bytes [] i h =
    let z : suc offset + i ≡ suc (offset + i) = omega arith in
    rw z (get_elem?-write_at_inside offset bytes [] i h)
get_elem?-write_at_inside (suc offset) bytes (b ∷ file) i h =
    let z : suc offset + i ≡ suc (offset + i) = omega arith in
    rw z (get_elem?-write_at_inside offset bytes file i h)

get_elem?-write_at_outside :
    (offset : ℕ) (bytes file : Bytes) (i : ℕ)
    → i < length file
    → (i < offset) ⊎ (offset + length bytes ≤ i)
    → get_elem? (write_at offset bytes file) i ≡ get_elem? file i
unfolding write_at
get_elem?-write_at_outside zero bytes file i h (inl l) = absurd (omega arith)
get_elem?-write_at_outside zero bytes file i h (inr r) =
    get_elem?-append_right bytes file i (omega arith)
get_elem?-write_at_outside (suc offset) bytes [] i h o = absurd (omega arith)
get_elem?-write_at_outside (suc offset) bytes (b ∷ file) zero h o = refl
get_elem?-write_at_outside (suc offset) bytes (b ∷ file) (suc i) h (inl l) =
    get_elem?-write_at_outside offset bytes file i (omega arith) (inl (omega arith))
get_elem?-write_at_outside (suc offset) bytes (b ∷ file) (suc i) h (inr r) =
    get_elem?-write_at_outside offset bytes file i (omega arith) (inr (omega arith))

get_elem?-take : (n : ℕ) (xs : Bytes) (i : ℕ) → i < n → get_elem? (take n xs) i ≡ get_elem? xs i
get_elem?-take zero xs i h = absurd (omega arith)
get_elem?-take (suc n) [] i h = refl
get_elem?-take (suc n) (x ∷ xs) zero h = refl
get_elem?-take (suc n) (x ∷ xs) (suc i) h = get_elem?-take n xs i (omega arith)

get_elem?-drop : (n : ℕ) (xs : Bytes) (i : ℕ) → get_elem? (drop n xs) i ≡ get_elem? xs (n + i)
get_elem?-drop zero xs i = let z : 0 + i ≡ i = omega arith in rw z refl
get_elem?-drop (suc n) [] i = refl
get_elem?-drop (suc n) (x ∷ xs) i =
    let z : suc n + i ≡ suc (n + i) = omega arith in rw z (get_elem?-drop n xs i)

get_elem?-length : (xs : Bytes) (i b : ℕ) → get_elem? xs i ≡ some b → i < length xs
get_elem?-length [] i b h = cc
get_elem?-length (x ∷ xs) zero b h = omega arith
get_elem?-length (x ∷ xs) (suc i) b h = omega (arith, get_elem?-length xs i b h)

pub get_elem?-inside : (xs : Bytes) (i : ℕ) → i < length xs → (b : ℕ) × (get_elem? xs i ≡ some b)
get_elem?-inside [] i h = absurd (omega arith)
get_elem?-inside (x ∷ xs) zero h = (x, refl)
get_elem?-inside (x ∷ xs) (suc i) h = get_elem?-inside xs i (omega arith)

-- A file that agrees with the content everywhere is the content, once it is cut.
pub set_len-agrees :
    (content file : Bytes)
    → ((i : ℕ) → i < length content → get_elem? file i ≡ get_elem? content i)
    → set_len (length content) file ≡ content
unfolding set_len
set_len-agrees [] file h = refl
set_len-agrees (c ∷ content) [] h = absurd (ground (arith, h 0 (omega arith)))
set_len-agrees (c ∷ content) (b ∷ file) h =
    let first : b ≡ c = ground (arith, h 0 (omega arith)) in
    rw (first, set_len-agrees content file (λ i l. h (suc i) (omega arith))) refl

-- The file is right at a position of the content.
unfoldable pub Right : Bytes → Bytes → ℕ → Type 0
Right content file i = (i < length content) × (get_elem? file i ≡ get_elem? content i)

-- Bytes that stand in the content from an offset on.
abbrev pub Stands : Bytes → ℕ → Bytes → Type 0
Stands content offset bytes =
    (i : ℕ)
    → i < length bytes
    → (offset + i < length content) × (get_elem? bytes i ≡ get_elem? content (offset + i))

pub write_all-Right_inside :
    (content : Bytes) (offset : ℕ) (bytes file : Bytes) (i : ℕ)
    → Stands content offset bytes
    → i < length bytes
    → Right content (write_all offset bytes file) (offset + i)
unfolding Right write_all
write_all-Right_inside content offset [] file i of h = absurd (omega arith)
write_all-Right_inside content offset (b ∷ bytes) file i of h =
    let (within, same) = of i h in
    (within, get_elem?-write_at_inside offset (b ∷ bytes) file i h ∙ same)

pub write_all-Right :
    (content : Bytes) (offset : ℕ) (bytes file : Bytes) (i : ℕ)
    → Stands content offset bytes
    → Right content file i
    → Right content (write_all offset bytes file) i
unfolding Right write_all
write_all-Right content offset [] file i of r = r
write_all-Right content offset (b ∷ bytes) file i of (within, same) =
    let (c, e) = get_elem?-inside content i within in
    let l = get_elem?-length file i c (same ∙ e) in
    elim (Bool-cases (ltb i offset)) [
      | inl before ↦ (
        within,
        get_elem?-write_at_outside offset (b ∷ bytes) file i l (inl (ground (arith, before)))
            ∙ same,
      )
      | inr from ↦ elim (Bool-cases (ltb i (offset + length (b ∷ bytes)))) [
        | inl till ↦
            let j : offset + (i - offset) ≡ i = ground (arith, from) in
            subst (λ k. Right content (write_at offset (b ∷ bytes) file) k) j
              (write_all-Right_inside content offset (b ∷ bytes) file (i - offset) of
                (ground (arith, from, till)))
        | inr after ↦ (
          within,
          get_elem?-write_at_outside offset (b ∷ bytes) file i l (inr (ground (arith, after)))
              ∙ same,
        )
      ]
    ]

-- What `read_slice` returns stands in the content.
pub read_slice-Stands :
    (content : Bytes) (offset want : ℕ) → Stands content offset (read_slice content offset want)
read_slice-Stands content offset want i h =
    let n = length-take want (drop offset content) in
    let d = length-drop offset content in
    let small : i < want = omega (arith, n, d, h) in
    (
      omega (arith, n, d, h),
      get_elem?-take want (drop offset content) i small ∙ get_elem?-drop offset content i,
    )
