-- ===== src/Transfer/Progress.antt =====
-- Properties of the transfer registry of transfer.rs.
use tunshell_mcp_agents.Prelude.{
  ℕ, suc, ◌+◌, ◌%◌, ◌≤◌, ◌<◌, ◌≡◌, ◌≢◌, refl, sym, subst, String, List, [], ◌∷◌, Option, none, some,
  length, min, arith, string_eq, eq_iff,
}
use tunshell_mcp_agents.Assoc.{lookup}
use tunshell_mcp_agents.Assoc.Laws.{lookup-insert}
use tunshell_mcp_agents.Transfer.{
  TransferStatus, TransferState, queued, running, done, TransferStore, u64_max, start, update_found,
  update, progress, set_totals, file_done, set_done, fail, get,
}

update-found :
    (id : String) (f : TransferStatus → TransferStatus) (store : TransferStore) (t : TransferStatus)
    → get id store ≡ some t
    → get id (update id f store) ≡ some (f t)
unfolding get update update_found
update-found id f store t h = rw h (ground (arith, lookup-insert id id (f t) store, eq_iff id id))

-- `file_done` for each file of a list, in order.
abbrev pub files_done : String → List ℕ → TransferStore → TransferStore
unfolding file_done
files_done id [] store = store
files_done id (size ∷ sizes) store = files_done id sizes (file_done id size store)

abbrev pub sum : List ℕ → ℕ
sum [] = 0
sum (n ∷ ns) = n + sum ns

-- A folder sync in progress.
abbrev pub status : String → TransferState → ℕ → ℕ → ℕ → ℕ → TransferStatus
status id state bytes total files_done files_total = record {
  id = id;
  state = state;
  bytes = bytes;
  total = total;
  files_done = files_done;
  files_total = files_total;
  error = none;
}

files_done-get :
    (id : String) (sizes : List ℕ) (store : TransferStore) (state : TransferState)
    (bytes total count files_total : ℕ)
    → get id store ≡ some (status id state bytes total count files_total)
    → bytes + sum sizes ≤ u64_max
    → count + length sizes < 4294967296
    → (state' : TransferState) × (get id (files_done id sizes store)
        ≡ some (status id state' (bytes + sum sizes) total (count + length sizes) files_total))
unfolding files_done
files_done-get id [] store state bytes total count files_total h b f =
    let bytes_eq : bytes + 0 ≡ bytes = omega arith in
    let count_eq : count + 0 ≡ count = omega arith in (state, rw (bytes_eq, count_eq) h)
files_done-get id (size ∷ sizes) store state bytes total count files_total h b f =
    let bytes_eq : (bytes + size) + sum sizes ≡ bytes + (size + sum sizes) = omega arith in
    let count_eq : (count + 1) + length sizes ≡ count + suc (length sizes) = omega arith in
    let (state', e) =
      files_done-get id sizes (file_done id size store) running (bytes + size) total (count + 1)
        files_total (one_done (update-found id _ store _ h)) (omega arith) (omega arith) in
    (state', rw (sym bytes_eq, sym count_eq) e)
  where
    one_done :
        get id (file_done id size store)
          ≡ some (
              status id running
                (min (bytes + size) u64_max)
                total
                ((count + 1) % 4294967296)
                files_total)
        → get id (file_done id size store)
          ≡ some (status id running (bytes + size) total (count + 1) files_total)
    one_done e =
        let no_saturation : min (bytes + size) u64_max ≡ bytes + size = omega arith in
        let no_wrap : (count + 1) % 4294967296 ≡ count + 1 = omega arith in
        rw (sym no_saturation, sym no_wrap) e

start-get :
    (id : String) (total : ℕ) (store : TransferStore)
    → get id (start id total store) ≡ some (status id queued 0 total 0 0)
unfolding get start
start-get id total store =
    ground (arith, lookup-insert id id (status id queued 0 total 0 0) store, eq_iff id id)

-- All the files of a list counted.
abbrev pub counted : String → List ℕ → TransferState → TransferStatus
counted id sizes state = status id state (sum sizes) (sum sizes) (length sizes) (length sizes)

-- The counters of a folder sync: from the start of a transfer, once the totals are set to the
-- number and the bytes of the files to send, below 2^32 and 2^64, and each file is reported done,
-- the registry shows exactly these numbers as done and as total and no error, and the end of the
-- transfer changes the state only, to `Done`.
pub sync_counts :
    (id : String) (planned : ℕ) (sizes : List ℕ) (store : TransferStore)
    → sum sizes ≤ u64_max
    → length sizes < 4294967296
    → let sent =
        files_done id sizes (set_totals id (sum sizes) (length sizes) (start id planned store)) in
      ((state : TransferState) × (get id sent ≡ some (counted id sizes state)))
      × (get id (set_done id sent) ≡ some (counted id sizes done))
unfolding set_totals set_done
sync_counts id planned sizes store b f =
    let (state, e) =
      files_done-get id sizes _ queued 0 (sum sizes) 0 (length sizes)
        (update-found id _ _ _ (start-get id planned store)) (omega arith) (omega arith) in
    let exact = from_zero _ state e in ((state, exact), update-found id _ _ _ exact)
  where
    from_zero :
        (sent : TransferStore) (state : TransferState)
        → get id sent
          ≡ some (status id state (0 + sum sizes) (sum sizes) (0 + length sizes) (length sizes))
        → get id sent ≡ some (counted id sizes state)
    from_zero sent state e =
        let bytes_eq : 0 + sum sizes ≡ sum sizes = omega arith in
        let count_eq : 0 + length sizes ≡ length sizes = omega arith in
        subst
          (λ n. get id sent ≡ some (status id state n (sum sizes) (length sizes) (length sizes)))
          bytes_eq
          (subst
            (λ c. get id sent ≡ some (status id state (0 + sum sizes) (sum sizes) c (length sizes)))
            count_eq e)

update-other :
    (id j : String) (f : TransferStatus → TransferStatus) (store : TransferStore)
    → id ≢ j
    → get j (update id f store) ≡ get j store
unfolding get update update_found
update-other id j f store ne = go (lookup id store)
  where
    go : (o : Option TransferStatus) → lookup j (update_found id f store o) ≡ lookup j store
    go none = refl
    go (some t) = ground (arith, lookup-insert id j (f t) store, eq_iff id j)

start-other :
    (id j : String) (total : ℕ) (store : TransferStore)
    → id ≢ j
    → get j (start id total store) ≡ get j store
unfolding get start
start-other id j total store ne =
    ground (arith, lookup-insert id j (status id queued 0 total 0 0) store, eq_iff id j)

-- Transfers do not disturb each other: no operation on one id changes what the registry answers
-- for another.
pub transfers_independent :
    (id j : String) (store : TransferStore) (bytes files_total : ℕ) (error : String)
    → id ≢ j
    → (get j (start id bytes store) ≡ get j store)
      × (get j (progress id bytes store) ≡ get j store)
      × (get j (set_totals id bytes files_total store) ≡ get j store)
      × (get j (file_done id bytes store) ≡ get j store)
      × (get j (set_done id store) ≡ get j store)
      × (get j (fail id error store) ≡ get j store)
unfolding progress set_totals file_done set_done fail
transfers_independent id j store bytes files_total error ne = (
  start-other id j bytes store ne,
  update-other id j _ store ne,
  update-other id j _ store ne,
  update-other id j _ store ne,
  update-other id j _ store ne,
  update-other id j _ store ne,
)
