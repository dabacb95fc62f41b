-- ===== src/Transfer/Slices/AnyOrder.antt =====
-- The slices of a file, written in any order and the last one at the end, give the file back.
use tunshell_mcp_agents.Prelude.{
  ℕ, zero, suc, ◌+◌, ◌-◌, ◌≤◌, ◌<◌, min, max, ◌≡◌, refl, subst, List, [], ◌∷◌, some, true, false,
  ltb, leb, nat_beq, length, drop, length-drop, length-take, get_elem?, any, arith, Bool-cases,
  Option-cases, inl, inr,
}
use tunshell_mcp_agents.Udp.Bytes.{Bytes}
use tunshell_mcp_agents.Transfer.Slices.{
  Slice, read_slice, slices_from, last_slice, stream_slices, write_all, write_slice, write_each,
}
use tunshell_mcp_agents.Transfer.Slices.Positions.{
  Right, Stands, write_all-Right_inside, write_all-Right, read_slice-Stands, set_len-agrees,
}

module _ (content : Bytes) where
  IsPart : Slice → Type 0
  IsPart s = (s.eof ≡ false) × Stands content s.offset s.content

  abbrev AllParts : List Slice → Type 0
  AllParts slices = (k : ℕ) (s : Slice) → get_elem? slices k ≡ some s → IsPart s

  -- A slice of the list that covers a position, and where it stands.
  Covers : List Slice → ℕ → Type 0
  Covers slices i =
      (j : ℕ) × (s : Slice) × (j < length slices)
      × (get_elem? slices j ≡ some s)
      × (s.offset ≤ i)
      × (i < s.offset + length s.content)

  write_slice-Right :
      (s : Slice) (file : Bytes) (i : ℕ)
      → IsPart s
      → Right content file i
      → Right content (write_slice s file) i
  unfolding IsPart write_slice
  write_slice-Right s file i (more, of) r =
      rw more (write_all-Right content s.offset s.content file i of r)

  write_slice-Right_covered :
      (s : Slice) (file : Bytes) (i : ℕ)
      → IsPart s
      → s.offset ≤ i
      → i < s.offset + length s.content
      → Right content (write_slice s file) i
  unfolding IsPart write_slice
  write_slice-Right_covered s file i (more, of) low high =
      let j : s.offset + (i - s.offset) ≡ i = omega arith in
      rw more (
        subst (λ k. Right content (write_all s.offset s.content file) k) j
          (write_all-Right_inside content s.offset s.content file (i - s.offset) of (omega arith)))

  write_each-Right :
      (slices : List Slice) (order : List ℕ) (file : Bytes) (i : ℕ)
      → AllParts slices
      → Right content file i
      → Right content (write_each slices order file) i
  unfolding write_each
  write_each-Right slices [] file i parts r = r
  write_each-Right slices (k ∷ order) file i parts r = elim (Option-cases (get_elem? slices k)) [
    | inl e ↦ rw e (write_each-Right slices order file i parts r)
    | inr (s, e) ↦ rw e (
        write_each-Right slices order (write_slice s file) i parts
          (write_slice-Right s file i (parts k s e) r))
  ]

  write_each-Right_covered :
      (slices : List Slice) (order : List ℕ) (file : Bytes) (i j : ℕ) (s : Slice)
      → AllParts slices
      → any (nat_beq j) order ≡ true
      → get_elem? slices j ≡ some s
      → s.offset ≤ i
      → i < s.offset + length s.content
      → Right content (write_each slices order file) i
  unfolding write_each
  write_each-Right_covered slices [] file i j s parts a e low high = absurd (ground arith)
  write_each-Right_covered slices (k ∷ order) file i j s parts a e low high =
      elim (Bool-cases (nat_beq j k)) [
        | inl here ↦
            let same : j ≡ k = ground (arith, here) in
            let e' : get_elem? slices k ≡ some s =
              subst (λ n. get_elem? slices n ≡ some s) same e in
            rw e' (
              write_each-Right slices order (write_slice s file) i parts
                (write_slice-Right_covered s file i (parts k s e') low high))
        | inr other ↦
            write_each-Right_covered slices order _ i j s parts (ground (arith, other, a)) e low
              high
      ]

  -- What the loop of `stream_file` makes from an offset on, with fuel for every byte.
  Cut : ℕ → ℕ → ℕ → Type 0
  Cut fuel chunk offset =
      (slices : List Slice) × (last : ℕ) × (slices_from fuel chunk content offset
        ≡ some (slices, last))
      × (last ≤ length content)
      × AllParts slices
      × ((i : ℕ) → offset ≤ i → i < last → Covers slices i)

  no_parts : AllParts []
  no_parts k s e = cc

  with_part : (s : Slice) (slices : List Slice) → IsPart s → AllParts slices → AllParts (s ∷ slices)
  with_part s slices p parts zero s' e = subst IsPart (ground (arith, e)) p
  with_part s slices p parts (suc k) s' e = parts k s' e

  slices_from-Cut :
      (fuel chunk offset : ℕ)
      → 0 < chunk
      → offset ≤ length content
      → length content < fuel + offset
      → Cut fuel chunk offset
  unfolding Cut slices_from Covers IsPart
  slices_from-Cut zero chunk offset pos within enough = absurd (omega arith)
  slices_from-Cut (suc fuel) chunk offset pos within enough =
      let size = length content in
      let want = min chunk (size - offset) in
      elim (Bool-cases (ltb offset size)) [
        | inr end ↦ rw end ([], offset, refl, within, no_parts, λ i low high. absurd (omega arith))
        | inl more ↦ elim (Bool-cases (leb size (offset + want))) [
          | inl final ↦
              rw (more, final)
                ([], offset, refl, within, no_parts, λ i low high. absurd (omega arith))
          | inr before ↦
              let (slices, last, e, l, parts, cover) =
                slices_from-Cut fuel chunk (offset + want) pos (ground (arith, before))
                  (ground (arith, more)) in
              let s : Slice = record {
                offset = offset;
                content = read_slice content offset want;
                eof = false;
              } in
              let n = length-take want (drop offset content) in
              let d = length-drop offset content in
              let long : length (read_slice content offset want) ≡ want =
                ground (arith, n, d, more) in
              rw (more, before, e)
                (
                  s ∷ slices,
                  last,
                  refl,
                  l,
                  with_part s slices (refl, read_slice-Stands content offset want) parts,
                  λ i low high. elim (Bool-cases (ltb i (offset + want))) [
                    | inl near ↦ (0, s, omega arith, refl, low, ground (arith, long, near))
                    | inr far ↦
                        let (j, s', lt, at, a, b) = cover i (ground (arith, far)) high in
                        (suc j, s', omega arith, at, a, b)
                  ],
                )
        ]
      ]

-- A transfer gives the file back. `stream_file` cuts any file, for any slice size, in a number of
-- rounds that the file bounds. Whatever stood at the destination before, longer or shorter: once
-- the slices before the last one have been written, each at least once and in any order, and then
-- the last one, the destination is the file.
pub transfer_any_order :
    (chunk : ℕ) (content old : Bytes)
    → (slices : List Slice) × (last : ℕ) × (stream_slices chunk content ≡ some (slices, last))
      × ((order : List ℕ)
          → ((j : ℕ) → j < length slices → any (nat_beq j) order ≡ true)
          → write_slice (last_slice content last) (write_each slices order old) ≡ content)
unfolding stream_slices Cut Covers write_slice Right
transfer_any_order chunk content old =
    let (slices, last, e, l, parts, cover) =
      slices_from-Cut content (length content + 1) (max chunk 1) 0 (omega arith) (omega arith)
        (omega arith) in
    let rest = read_slice content last (length content - last) in
    let n = length-take (length content - last) (drop last content) in
    let d = length-drop last content in
    let end : last + length rest ≡ length content = omega (arith, n, d, l) in
    (
      slices,
      last,
      e,
      λ order every.
          let file = write_each slices order old in
          rw end (
            set_len-agrees content (write_all last rest file) (λ i within.
              elim (Bool-cases (ltb i last)) [
                | inl low ↦
                    let (j, s, lt, at, a, b) = cover i (omega arith) (ground (arith, low)) in
                    (write_all-Right content last rest file i
                      (read_slice-Stands content last (length content - last))
                      (write_each-Right_covered content slices order old i j s parts (every j lt) at
                        a b)).1
                | inr high ↦
                    let k : last + (i - last) ≡ i = ground (arith, high) in
                    (subst (λ p. Right content (write_all last rest file) p) k
                      (write_all-Right_inside content last rest file (i - last)
                        (read_slice-Stands content last (length content - last))
                        (ground (arith, high, end, within)))).1
              ])),
    )
