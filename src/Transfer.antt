-- ===== src/Transfer.antt =====
-- `TransferStore` of transfer.rs: the registry of the transfers that this node started. Byte
-- counters are u64, file counters u32; `files_done += 1` wraps, as in a release build.
pub mod Progress
pub mod Slices
mod Examples
use tunshell_mcp_agents.Prelude.{
  ℕ, ◌+◌, ◌%◌, ◌^◌, min, String, List, [], ◌∷◌, Option, none, some, string_eq,
}
use tunshell_mcp_agents.Assoc.{Assoc, lookup, insert}

pub data TransferState : Type 0 where
  queued running done failed : TransferState

pub record TransferStatus : Type 0 where
  pub id : String
  pub state : TransferState
  pub bytes : ℕ
  pub total : ℕ
  pub files_done : ℕ
  pub files_total : ℕ
  pub error : Option String

abbrev pub TransferStore : Type 0
TransferStore = Assoc String TransferStatus

-- `u64::MAX`
abbrev pub u64_max : ℕ
u64_max = 18446744073709551615

unfoldable pub start : String → ℕ → TransferStore → TransferStore
unfolding insert
start id total store =
    insert id
      (record {
        id = id;
        state = queued;
        bytes = 0;
        total = total;
        files_done = 0;
        files_total = 0;
        error = none;
      })
      store

-- `if let Some(t) = inner.get_mut(id) { .. }`
abbrev pub update_found :
    String
    → (TransferStatus → TransferStatus)
    → TransferStore
    → Option TransferStatus
    → TransferStore
unfolding insert
update_found id f store none = store
update_found id f store (some t) = insert id (f t) store

unfoldable pub update : String → (TransferStatus → TransferStatus) → TransferStore → TransferStore
unfolding lookup
update id f store = update_found id f store (lookup id store)

unfoldable pub progress : String → ℕ → TransferStore → TransferStore
unfolding update
progress id bytes store = update id (λ t. record t { state = running; bytes = bytes }) store

unfoldable pub set_totals : String → ℕ → ℕ → TransferStore → TransferStore
unfolding update
set_totals id total_bytes files_total store =
    update id (λ t. record t { total = total_bytes; files_total = files_total }) store

unfoldable pub file_done : String → ℕ → TransferStore → TransferStore
unfolding update
file_done id file_bytes store =
    update id
      (λ t. record t {
        state = running;
        files_done = (t.files_done + 1) % 4294967296;
        bytes = min (t.bytes + file_bytes) u64_max;
      })
      store

unfoldable pub set_done : String → TransferStore → TransferStore
unfolding update
set_done id store = update id (λ t. record t { state = done; bytes = t.total }) store

unfoldable pub fail : String → String → TransferStore → TransferStore
unfolding update
fail id error store = update id (λ t. record t { state = failed; error = some error }) store

unfoldable pub get : String → TransferStore → Option TransferStatus
unfolding lookup
get id store = lookup id store
