-- ===== src/Udp/Reassembler/AnyOrder.antt =====
-- Every message that is split is put together again, in whatever order its fragments arrive.
use native.Mathlib.Decide.{ℕ_discrete}
use tunshell_mcp_agents.Prelude.{
  ℕ, zero, suc, ◌≤◌, ◌<◌, List, [], ◌∷◌, ◌++◌, ◌≡◌, refl, ◌∙◌, ap, Option, none, some, nat_beq,
  nat_beq_iff, nat_eq, length, get_elem?, concat, arith, Option-cases, inl, inr, ◌||◌, All, ◌≢◌,
  true, false, subst, any, replicate, Bool,
}
use tunshell_mcp_agents.Assoc.{Assoc, lookup, insert, remove, contains_key, UniqueKeys}
use tunshell_mcp_agents.Assoc.Laws.{lookup-insert, lookup-remove}
use tunshell_mcp_agents.Assoc.Keys.{all_present, length-remove, remove-UniqueKeys}
use tunshell_mcp_agents.Udp.Bytes.{Bytes}
use tunshell_mcp_agents.Udp.Fragment.{
  FragmentHeader, fragment, fragments_from, body_chunks, split_into_fragments,
}
use tunshell_mcp_agents.Udp.Fragment.Split.{
  split-fragments, get_elem?-fragments_from, parse-fragment, concat-body_chunks,
  length-fragments_from,
}
use tunshell_mcp_agents.Udp.Reassembler.{
  Partial, FragmentReassembler, make_room, entry_for, add_part, accept, insert_payload, feed,
}
use tunshell_mcp_agents.Udp.Reassembler.Bounds.{accept-IsBounded}
use tunshell_mcp_agents.Udp.Reassembler.Eviction.{
  IsBounded, IsReady, lookup-make_room_self, lookup-make_room,
}
use tunshell_mcp_agents.Udp.Reassembler.Genuine.{
  IsGenuine, Holds, full_or_not, accept-genuine, entry', entry'-IsReady, entry'-IsGenuine,
}

abbrev elem : ℕ → List ℕ → Bool
elem i = any (nat_beq i)

-- The fragments at the given positions.
abbrev pub fragments_at : List Bytes → List ℕ → List Bytes
fragments_at frags [] = []
fragments_at frags (i ∷ is) = elim (get_elem? frags i) [
  | none ↦ fragments_at frags is
  | some f ↦ f ∷ fragments_at frags is
]

-- A map with all keys below `n` has at least `n` entries.
length-ge :
    (n : ℕ) (m : Assoc ℕ Bytes)
    → UniqueKeys m
    → ((i : ℕ) → i < n → contains_key i m ≡ true)
    → n ≤ length m
unfolding contains_key
length-ge zero m u h = omega arith
length-ge (suc n) m u h =
    let here = length-remove n m u in
    let top = h n (omega arith) in
    ground (
      arith,
      here,
      top,
      length-ge n (remove n m) (remove-UniqueKeys n m u)
          (λ i lt. ground (arith, h i (omega arith), lookup-remove n i m, nat_beq_iff n i)),
    )

-- The parts held of message `id`.
abbrev parts_of : Option Partial → Assoc ℕ Bytes
parts_of none = []
parts_of (some p) = p.parts

-- What is held of message `id` are the chunks of `cs` at the positions of `seen`.
record HasSeen (id : ℕ) (cs : List Bytes) (seen : List ℕ) (r : FragmentReassembler) : Type 0 where
  bounded : IsBounded r
  held : Holds id cs r.partial
  exactly : (i : ℕ) → contains_key i (parts_of (lookup id r.partial)) ≡ elem i seen

entry_for-parts :
    (cs : List Bytes) (m : Assoc ℕ Partial) (h : FragmentHeader) (tick : ℕ)
    → Holds h.msg_id cs m
    → h.count ≡ length cs
    → (entry_for m h tick).parts ≡ parts_of (lookup h.msg_id m)
unfolding entry_for
entry_for-parts cs m h tick held total = elim (Option-cases (lookup h.msg_id m)) [
  | inl e ↦ rw (e, entry_for)
  | inr (p, e) ↦
      rw (e, entry_for)
        (rw (let q : nat_beq p.count h.count ≡ true = ground (arith, (held p e).total, total) in q))
]

-- Fragment `i` of `cs` arrives.
module _ (cs : List Bytes) (seen : List ℕ) (r : FragmentReassembler) (h : FragmentHeader)
    (chunk : Bytes) (s : HasSeen h.msg_id cs seen r) (small : h.count < 65536)
    (total : h.count ≡ length cs) (at : get_elem? cs h.index ≡ some chunk) where
  abbrev next : Partial
  next = entry' cs r h chunk s.bounded small total at s.held

  parts-next : next.parts ≡ insert h.index chunk (parts_of (lookup h.msg_id r.partial))
  unfolding add_part
  parts-next = ap (insert h.index chunk) (
      entry_for-parts cs (make_room r h.msg_id) h _
        (λ p e. s.held p (lookup-make_room r s.bounded h.msg_id h.msg_id p e)) total
      ∙ ap parts_of (lookup-make_room_self r s.bounded h.msg_id))

  keys-next : (i : ℕ) → contains_key i next.parts ≡ elem i (h.index ∷ seen)
  unfolding contains_key
  keys-next i = rw parts-next (
      ground (
        arith,
        s.exactly i,
        nat_beq_iff i h.index,
        nat_beq_iff h.index i,
        lookup-insert h.index i chunk (parts_of (lookup h.msg_id r.partial)),
      ))

  ready : IsReady next
  ready = entry'-IsReady cs r h chunk s.bounded small total at s.held

  genuine : IsGenuine cs next
  genuine = entry'-IsGenuine cs r h chunk s.bounded small total at s.held

  -- While a position is missing, the fragment is stored.
  stores :
      (j : ℕ)
      → j < length cs
      → elem j (h.index ∷ seen) ≡ false
      → HasSeen h.msg_id cs (h.index ∷ seen) (accept r h chunk).0 × ((accept r h chunk).1 ≡ none)
  unfolding contains_key
  stores j lt missing =
      let not_full : ¬ (length next.parts ≡ next.count) = λ full.
        let (c, f) =
          all_present next.count next.parts ready.unique ready.below full j
            (omega (arith, genuine.total)) in
        ground (arith, keys-next j, f) in
      elim (full_or_not cs r h chunk s.bounded small total at s.held) [
        | inl (full, e) ↦ absurd (not_full full)
        | inr (part, e) ↦ (
          record {
            bounded = accept-IsBounded r h chunk small s.bounded;
            held = (accept-genuine cs r h chunk s.bounded small total at s.held).0;
            exactly = λ i. rw e (
                rw (lookup-insert h.msg_id h.msg_id next (make_room r h.msg_id)) (
                  rw (let q : nat_beq h.msg_id h.msg_id ≡ true = ground arith in q) (keys-next i)));
          },
          rw e,
        )
      ]

  -- The last one that is missing completes the message.
  completes :
      ((j : ℕ) → j < length cs → elem j (h.index ∷ seen) ≡ true)
      → (accept r h chunk).1 ≡ some (concat cs)
  completes all =
      let enough = length-ge (length cs) next.parts ready.unique (λ i lt. keys-next i ∙ all i lt) in
      elim (full_or_not cs r h chunk s.bounded small total at s.held) [
        | inl (full, e) ↦ rw e
        | inr (part, e) ↦ absurd (omega (arith, enough, genuine.total))
      ]

get_elem?-some : (cs : List Bytes) (i : ℕ) → i < length cs → (c : Bytes) × (get_elem? cs i ≡ some c)
get_elem?-some [] i h = absurd (omega arith)
get_elem?-some (c ∷ cs) zero h = (c, refl)
get_elem?-some (c ∷ cs) (suc i) h = get_elem?-some cs i (omega arith)

contains_key-nil : (i : ℕ) → contains_key {V = Bytes} i [] ≡ false
unfolding contains_key
contains_key-nil i = refl

pub fragments_at-cons :
    (frags : List Bytes) (is : List ℕ) (i : ℕ) (f : Bytes)
    → get_elem? frags i ≡ some f
    → fragments_at frags (i ∷ is) ≡ f ∷ fragments_at frags is
fragments_at-cons frags is i f e = rw (e, fragments_at)

feed-nil : (r : FragmentReassembler) → (feed r []).1 ≡ []
unfolding feed
feed-nil r = refl

module _ (cs : List Bytes) (id : ℕ) (id_fits : id < 4294967296) (fits : length cs < 65536) where
  abbrev frags : List Bytes
  frags = fragments_from id (length cs) 0 cs

  abbrev header : ℕ → FragmentHeader
  header i = record { msg_id = id; index = i; count = length cs }

  insert_payload-fragment :
      (r : FragmentReassembler) (i : ℕ) (c : Bytes)
      → i < length cs
      → insert_payload r (fragment id (length cs) i c) ≡ accept r (header i) c
  unfolding insert_payload
  insert_payload-fragment r i c lt =
      rw (parse-fragment id (length cs) i c id_fits (omega arith) fits, insert_payload)

  -- Feeding the fragment at a position is accepting its chunk.
  feed-fragment :
      (r : FragmentReassembler) (i : ℕ) (c : Bytes) (is : List ℕ)
      → get_elem? cs i ≡ some c
      → i < length cs
      → (feed r (fragments_at frags (i ∷ is))).1
        ≡ (accept r (header i) c).1 ∷ (feed (accept r (header i) c).0 (fragments_at frags is)).1
  unfolding feed
  feed-fragment r i c is e lt =
      let at : get_elem? frags i ≡ some (fragment id (length cs) i c) =
        get_elem?-fragments_from id (length cs) 0 i cs c e
        ∙ ap (λ j. some (fragment id (length cs) j c)) (omega arith) in
      rw (fragments_at-cons frags is i _ at) (
        ap (λ (o : FragmentReassembler × Option Bytes). o.1 ∷ (feed o.0 (fragments_at frags is)).1)
          (insert_payload-fragment r i c lt))

  feed_in_order :
      (seen order : List ℕ) (last : ℕ) (r : FragmentReassembler)
      → HasSeen id cs seen r
      → All (λ i. i < length cs) order
      → last < length cs
      → elem last seen ≡ false
      → elem last order ≡ false
      → ((j : ℕ) → j < length cs → j ≢ last → (elem j seen || elem j order) ≡ true)
      → (feed r (fragments_at frags (order ++ last ∷ []))).1
        ≡ replicate (length order) none ++ some (concat cs) ∷ []
  feed_in_order seen [] last r s inside lt ns none_yet rest =
      let (c, e) = get_elem?-some cs last lt in
      rw (feed-fragment r last c [] e lt) (
        rw
          (completes cs seen r (header last) c s fits refl e (λ j below. elim (ℕ_discrete j last) [
            | yes here ↦ ground (arith, here)
            | no other ↦ ground (arith, rest j below other)
          ]))
          (ap (λ o. some (concat cs) ∷ o) (feed-nil _)))
  feed_in_order seen (i ∷ order) last r s inside lt ns none_yet rest =
      let (c, e) = get_elem?-some cs i inside.0 in
      let missing : elem last (i ∷ seen) ≡ false =
        ground (arith, none_yet, ns, nat_beq_iff last i) in
      let (s', out) = stores cs seen r (header i) c s fits refl e last lt missing in
      rw (feed-fragment r i c (order ++ last ∷ []) e inside.0) (
        rw out (
          ap (λ o. none ∷ o)
            (feed_in_order (i ∷ seen) order last (accept r (header i) c).0 s' inside.1 lt missing
              (ground (arith, none_yet)) (λ j below other. ground (arith, rest j below other)))))

-- Take a body that is split, with a 32-bit message id of which the reassembler holds nothing yet.
-- Send its fragments in any order and any number of times until only `last` is missing, then
-- `last`: every call before the last returns nothing, and the last one returns the body.
pub reassemble_any_order :
    (r : FragmentReassembler) (body : Bytes) (id : ℕ) (frags : List Bytes) (order : List ℕ)
    (last : ℕ)
    → IsBounded r
    → lookup id r.partial ≡ none
    → id < 4294967296
    → split_into_fragments body id ≡ some frags
    → All (λ i. i < length frags) order
    → last < length frags
    → any (nat_beq last) order ≡ false
    → ((j : ℕ) → j < length frags → j ≢ last → any (nat_beq j) order ≡ true)
    → (feed r (fragments_at frags (order ++ last ∷ []))).1
      ≡ replicate (length order) none ++ some body ∷ []
reassemble_any_order r body id frags order last v free small split inside lt once rest =
    let cs = body_chunks body in
    let (fits, same) = split-fragments body id frags split in
    let len : length frags ≡ length cs =
      ap length same ∙ length-fragments_from id (length cs) 0 cs in
    let start : HasSeen id cs [] r = record {
      bounded = v;
      held = λ p e. cc;
      exactly = λ i. rw free (contains_key-nil i);
    } in
    rw same (
      feed_in_order cs id small fits [] order last r start
        (subst (λ n. All (λ i. i < n) order) len inside) (omega arith) refl once
        (λ j below other. rest j (omega arith) other)
      ∙ ap (λ b. replicate (length order) none ++ some b ∷ []) (concat-body_chunks body))
