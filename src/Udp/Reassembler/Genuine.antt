-- ===== src/Udp/Reassembler/Genuine.antt =====
-- A message that is put together is the message that was split, whatever else arrives.
use tunshell_mcp_agents.Prelude.{
  ℕ, zero, suc, ◌+◌, ◌%◌, ◌^◌, ◌<◌, List, [], ◌∷◌, ◌≡◌, refl, sym, ◌∙◌, ◌⊎◌, Option, none, some,
  nat_beq, nat_beq_iff, nat_eq, length, get_elem?, concat, arith, Bool-cases, Option-cases, inl,
  inr, All, ◌≢◌, true, subst,
}
use native.Mathlib.Decide.{ℕ_discrete}
use tunshell_mcp_agents.Assoc.{Assoc, lookup, insert, remove}
use tunshell_mcp_agents.Assoc.Laws.{lookup-insert, lookup-remove}
use tunshell_mcp_agents.Assoc.Keys.{all_present, length_bound}
use tunshell_mcp_agents.Udp.Bytes.{Bytes}
use tunshell_mcp_agents.Udp.Fragment
use tunshell_mcp_agents.Udp.Fragment.{FragmentHeader}
use tunshell_mcp_agents.Udp.Reassembler.{
  Partial, FragmentReassembler, make_room, entry_for, add_part, finish, accept, insert_payload,
  collect, feed,
}
use tunshell_mcp_agents.Udp.Reassembler.Bounds.{insert_payload-IsBounded, parse-count-lt}
use tunshell_mcp_agents.Udp.Reassembler.Eviction.{
  IsBounded, IsReady, make_room-IsOpen, lookup-make_room, IsReady-entry_for, IsReady-add_part,
}

get_elem?-lt : {A : Type 0} (xs : List A) (i : ℕ) (a : A) → get_elem? xs i ≡ some a → i < length xs
get_elem?-lt [] i a h = cc
get_elem?-lt (x ∷ xs) zero a h = omega arith
get_elem?-lt (x ∷ xs) (suc i) a h = omega (arith, get_elem?-lt xs i a h)

-- The parts are chunks of `cs`, each at its position.
pub record IsGenuine (cs : List Bytes) (p : Partial) : Type 0 where
  pub total : p.count ≡ length cs
  pub at : (i : ℕ) (c : Bytes) → lookup i p.parts ≡ some c → get_elem? cs i ≡ some c

abbrev pub Holds : ℕ → List Bytes → Assoc ℕ Partial → Type 0
Holds id cs m = (p : Partial) → lookup id m ≡ some p → IsGenuine cs p

collect-chunks :
    (cs : List Bytes) (i : ℕ) (parts : Assoc ℕ Bytes)
    → ((k : ℕ) (c : Bytes) → get_elem? cs k ≡ some c → lookup (i + k) parts ≡ some c)
    → collect (length cs) i parts ≡ some (concat cs)
unfolding collect
collect-chunks [] i parts h = refl
collect-chunks (c ∷ cs) i parts h =
    let here : lookup i parts ≡ some c =
      subst (λ k. lookup k parts ≡ some c) (let e : i + 0 ≡ i = omega arith in e) (h 0 c refl) in
    let rest = collect-chunks cs (i + 1) parts (λ k d e.
      subst (λ j. lookup j parts ≡ some d) (let q : i + suc k ≡ i + 1 + k = omega arith in q)
        (h (suc k) d e)) in
    rw (here, rest, collect)

-- A full message of genuine parts is collected into the body.
pub collect-full :
    (cs : List Bytes) (p : Partial)
    → IsReady p
    → IsGenuine cs p
    → length p.parts ≡ p.count
    → collect p.count 0 p.parts ≡ some (concat cs)
collect-full cs p o g full = rw g.total (
    collect-chunks cs 0 p.parts λ k c e.
      let (d, f) =
        all_present p.count p.parts o.unique o.below full k
          (omega (arith, get_elem?-lt cs k c e, g.total)) in
      let at = g.at k d f in
      let there : lookup k p.parts ≡ some c = cc (e, at, f) in
      subst (λ j. lookup j p.parts ≡ some c) (let q : k ≡ 0 + k = omega arith in q) there)

entry_for-IsGenuine :
    (cs : List Bytes) (m : Assoc ℕ Partial) (h : FragmentHeader) (tick : ℕ)
    → Holds h.msg_id cs m
    → h.count ≡ length cs
    → IsGenuine cs (entry_for m h tick)
unfolding entry_for lookup
entry_for-IsGenuine cs m h tick a same = elim (Option-cases (lookup h.msg_id m)) [
  | inl e ↦ rw (e, entry_for) (record { total = same; at = λ i c q. cc })
  | inr (p, e) ↦
      rw (e, entry_for)
        (rw (let q : nat_beq p.count h.count ≡ true = ground (arith, (a p e).total, same) in q)
          (a p e))
]

add_part-IsGenuine :
    (cs : List Bytes) (p : Partial) (h : FragmentHeader) (chunk : Bytes) (tick : ℕ)
    → IsGenuine cs p
    → get_elem? cs h.index ≡ some chunk
    → IsGenuine cs (add_part p h chunk tick)
unfolding add_part
add_part-IsGenuine cs p h chunk tick g e = record {
  total = g.total;
  at = λ i c q.
      ground (arith, lookup-insert h.index i chunk p.parts, g.at i c, nat_beq_iff h.index i);
}

-- The steps of `accept` on a fragment of the message that was split into `cs`.
module _ (cs : List Bytes) (r : FragmentReassembler) (h : FragmentHeader) (chunk : Bytes)
    (v : IsBounded r) (small : h.count < 65536) (total : h.count ≡ length cs)
    (at : get_elem? cs h.index ≡ some chunk) (held : Holds h.msg_id cs r.partial) where
  abbrev pub tick' : ℕ
  tick' = (r.tick + 1) % 2 ^ 64

  abbrev pub entry' : Partial
  entry' = add_part (entry_for (make_room r h.msg_id) h tick') h chunk tick'

  pub accept_finishes :
      accept r h chunk ≡ finish (record r { tick = tick' }) (make_room r h.msg_id) h entry'
  unfolding accept
  accept_finishes = ground (arith, get_elem?-lt cs h.index chunk at)

  entry-IsReady : IsReady (entry_for (make_room r h.msg_id) h tick')
  entry-IsReady =
      (IsReady-entry_for (make_room r h.msg_id) h tick' (make_room-IsOpen r v h.msg_id) small).0

  entry-IsGenuine : IsGenuine cs (entry_for (make_room r h.msg_id) h tick')
  entry-IsGenuine =
      entry_for-IsGenuine cs (make_room r h.msg_id) h tick'
        (λ p e. held p (lookup-make_room r v h.msg_id h.msg_id p e)) total

  pub entry'-IsReady : IsReady entry'
  entry'-IsReady =
      IsReady-add_part _ h chunk tick'
        (omega (arith, entry-IsGenuine.total, get_elem?-lt cs h.index chunk at)) entry-IsReady

  pub entry'-IsGenuine : IsGenuine cs entry'
  entry'-IsGenuine = add_part-IsGenuine cs _ h chunk tick' entry-IsGenuine at

  -- Whether the message is complete.
  pub full_or_not :
      (length entry'.parts ≡ entry'.count)
        × (accept r h chunk ≡ (
          record r {
            tick = tick';
            partial = remove h.msg_id (insert h.msg_id entry' (make_room r h.msg_id));
          },
          some (concat cs),
        ))
      ⊎ (length entry'.parts < entry'.count)
        × (accept r h chunk ≡ (
          record r { tick = tick'; partial = insert h.msg_id entry' (make_room r h.msg_id) },
          none,
        ))
  unfolding finish
  full_or_not =
      let bound =
        length_bound entry'.count entry'.parts entry'-IsReady.unique entry'-IsReady.below in
      let same : entry'.count ≡ h.count = entry'-IsGenuine.total ∙ sym total in
      elim (Bool-cases (nat_beq (length entry'.parts % 65536) h.count)) [
        | inl full ↦
            let all : length entry'.parts ≡ entry'.count = ground (arith, full, bound, same) in
            inl (
              all,
              rw accept_finishes (
                  rw (full, finish)
                    (rw (collect-full cs entry' entry'-IsReady entry'-IsGenuine all))),
            )
        | inr part ↦ inr (ground (arith, part, bound, same), rw accept_finishes (rw (part, finish)))
      ]

-- A payload that, if it is read as a fragment of message `id`, is a fragment of `cs`.
pub record IsFrom (id : ℕ) (cs : List Bytes) (payload : Bytes) : Type 0 where
  pub fits :
      (h : FragmentHeader) (chunk : Bytes)
      → Fragment.parse payload ≡ some (h, chunk)
      → h.msg_id ≡ id
      → (h.count ≡ length cs) × (get_elem? cs h.index ≡ some chunk)

-- A payload of message `id` that completes it returns `body`.
pub record Returns (id : ℕ) (body payload : Bytes) (out : Option Bytes) : Type 0 where
  pub only :
      (h : FragmentHeader) (chunk b : Bytes)
      → Fragment.parse payload ≡ some (h, chunk)
      → h.msg_id ≡ id
      → out ≡ some b
      → b ≡ body

abbrev pub AllReturn : ℕ → Bytes → List Bytes → List (Option Bytes) → Type 0
AllReturn id body [] outs = Unit
AllReturn id body (p ∷ ps) [] = Unit
AllReturn id body (p ∷ ps) (o ∷ outs) = Returns id body p o × AllReturn id body ps outs

-- A fragment of another message leaves what is held of `id` alone, or drops it.
accept-Holds_other :
    (cs : List Bytes) (id : ℕ) (r : FragmentReassembler) (h : FragmentHeader) (chunk : Bytes)
    → IsBounded r
    → h.msg_id ≢ id
    → Holds id cs r.partial
    → Holds id cs (accept r h chunk).0.partial
unfolding accept finish
accept-Holds_other cs id r h chunk v ne held p e = held p (
    ground (
      arith,
      e,
      ne,
      nat_beq_iff h.msg_id id,
      lookup-make_room r v h.msg_id id p,
      lookup-insert h.msg_id id
          (add_part (entry_for (make_room r h.msg_id) h ((r.tick + 1) % 2 ^ 64)) h chunk
            ((r.tick + 1) % 2 ^ 64))
          (make_room r h.msg_id),
      lookup-remove h.msg_id id (
          insert h.msg_id
            (add_part (entry_for (make_room r h.msg_id) h ((r.tick + 1) % 2 ^ 64)) h chunk
              ((r.tick + 1) % 2 ^ 64))
            (make_room r h.msg_id)),
    ))

pub accept-genuine :
    (cs : List Bytes) (r : FragmentReassembler) (h : FragmentHeader) (chunk : Bytes)
    → IsBounded r
    → h.count < 65536
    → h.count ≡ length cs
    → get_elem? cs h.index ≡ some chunk
    → Holds h.msg_id cs r.partial
    → Holds h.msg_id cs (accept r h chunk).0.partial
      × ((b : Bytes) → (accept r h chunk).1 ≡ some b → b ≡ concat cs)
accept-genuine cs r h chunk v small total at held =
    let p' = entry' cs r h chunk v small total at held in
    let m = make_room r h.msg_id in
    let there = lookup-insert h.msg_id h.msg_id p' m in
    let gone = lookup-remove h.msg_id h.msg_id (insert h.msg_id p' m) in
    elim (full_or_not cs r h chunk v small total at held) [
      | inl (full, e) ↦ rw e ((λ p q. ground (arith, gone, q)), (λ b q. ground arith))
      | inr (part, e) ↦ rw e (
        (λ p q.
            subst (IsGenuine cs) (let s : p' ≡ p = ground (arith, there, q) in s)
              (entry'-IsGenuine cs r h chunk v small total at held)),
        (λ b q. cc),
      )
    ]

insert_payload-genuine :
    (cs : List Bytes) (id : ℕ) (r : FragmentReassembler) (payload : Bytes)
    → IsBounded r
    → All (λ b. b < 256) payload
    → IsFrom id cs payload
    → Holds id cs r.partial
    → Holds id cs (insert_payload r payload).0.partial
      × Returns id (concat cs) payload (insert_payload r payload).1
unfolding insert_payload
insert_payload-genuine cs id r payload v bytes from held =
    elim (Option-cases (Fragment.parse payload)) [
      | inl e ↦ rw (e, insert_payload) (held, record { only = λ h chunk b q. cc })
      | inr ((h, chunk), e) ↦
          rw (e, insert_payload)
            (elim (ℕ_discrete h.msg_id id) [
              | no ne ↦ (
                accept-Holds_other cs id r h chunk v ne held,
                record { only = λ h' chunk' b q same. absurd (ne (cc (e, q, same))) },
              )
              | yes same ↦
                  let (total, at) = from.fits h chunk e same in
                  let held' : Holds h.msg_id cs r.partial =
                    subst (λ j. Holds j cs r.partial) (sym same) held in
                  let (keeps, returns) =
                    accept-genuine cs r h chunk v (parse-count-lt payload h chunk bytes e) total at
                      held' in
                  (
                    subst (λ j. Holds j cs (accept r h chunk).0.partial) same keeps,
                    record { only = λ h' chunk' b q s o. returns b o },
                  )
            ])
    ]

-- Feed any payloads of bytes to a reassembler that is within its bounds and holds nothing of
-- message `id` but chunks of `cs`. If the payloads that are fragments of message `id` are
-- fragments of `cs`, in any order, repeated or missing, among any others, then every payload of
-- message `id` that returns a body returns the bytes of `cs`.
pub feed_genuine :
    (cs : List Bytes) (id : ℕ) (r : FragmentReassembler) (payloads : List Bytes)
    → IsBounded r
    → All (All (λ b. b < 256)) payloads
    → All (IsFrom id cs) payloads
    → Holds id cs r.partial
    → AllReturn id (concat cs) payloads (feed r payloads).1
unfolding feed
feed_genuine cs id r [] v bytes from held = tt
feed_genuine cs id r (p ∷ ps) v bytes from held =
    let (held', returns) = insert_payload-genuine cs id r p v bytes.0 from.0 held in
    (
      returns,
      feed_genuine cs id (insert_payload r p).0 ps (insert_payload-IsBounded r p bytes.0 v) bytes.1
          from.1 held',
    )
