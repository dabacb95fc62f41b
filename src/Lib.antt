-- ===== src/Lib.antt =====
-- tunshell_mcp_agents: peers run agents, a relay connects them by rooms, and peers also talk
-- directly over UDP. This library models the relay, the UDP channel with its framing and its
-- encryption, the executor with the policy that it asks, the jobs, the scheduler, and the
-- bookkeeping of syncs and transfers.
--
-- The parts, and where their code stands:
--   Prelude, Assoc: shared names, lists, Boolean tests; maps (`HashMap`, `DashMap`) as association
--     lists, whose order stands for an iteration order.
--   Udp (crates/shared/src/udp.rs): Packet and Packet/Wire for `UdpPacketHeader`, Fragment and
--     Fragment/Split for `FragmentHeader` and `split_into_fragments`, Reassembler and the modules
--     below it for `FragmentReassembler`, Candidates for `candidate_addrs_multi`, Bytes for the
--     buffers. Channel (crates/shared/src/udp_channel.rs) for the ARQ of `UdpChannel`: State, Send
--     (`send_reliable`, `send_reliable_packet`), Recv (`recv_loop`), Tick (`retransmit_loop`).
--   Relay (crates/relay/src): Types for the messages of crates/shared/src/types.rs, protocol.rs and
--     udp.rs, Room for `Room` of state.rs, Routing for routing.rs, Handler for the messages of
--     handler.rs (`handle_client_msg`, and what `handle_socket` does when a session comes and
--     goes), Server for `RelayState` and the rooms behind their `Arc`s.
--   MapReduce (crates/mcp-server/src/mapreduce.rs): Partition for `partition`, Job for `JobState`
--     and `run_job`.
--   Safety (crates/mcp-server/src/safety.rs): Words for what it uses of `str`, Git for the checks of
--     arguments, Commands for `check_command_allowed`, Paths for `check_path_allowed`.
--   Sync (crates/mcp-server/src/sync.rs): `diff_manifests`.
--   Transfer (crates/mcp-server/src/transfer.rs): `TransferStore`; Slices for the slices of
--     `stream_file` and what `receive_chunk_raw` writes.
--   Scheduler (crates/mcp-server/src/scheduler.rs): `Scheduler` and the table behind it.
--   Executor (crates/mcp-server/src): Execute for `execute`, `run_compute_fn` and `recv_file_chunk` of
--     executor/mod.rs, Files and Walk for what they call in files.rs and transfer.rs, Types for
--     `Command` of crates/shared/src/protocol.rs and the calls that leave the executor, Gates for what
--     a call needs.
--   Exclude (crates/mcp-server/src/exclude.rs): `is_excluded` and the glob matcher; Sound for what its
--     answers mean.
--   Crypto (crates/shared/src/crypto.rs): `Cipher` and `room_key`; Envelope for the envelope that is
--     opened again, RoomKey for the input of the hash.
--   The Examples modules run the definitions on concrete input.
--
-- How the parts meet: Handler reads rooms by Routing only, Server runs a handler on the room that a
-- connection's `Arc` points to, what Fragment splits Reassembler puts together, and Channel uses both;
-- Executor asks Safety before it makes a call.
--
-- Conventions: a handler takes the state and returns the new state with what it sends, in order. A
-- `Tx` is the number of a channel; sending never fails and log lines are left out. Machine integers
-- are natural numbers with the wrap-around written out. Formatted error texts are constructors. An
-- address is a number. A function of third-party code is a parameter: `decode` of protobuf frames,
-- `to_json`, `to_lowercase`, the current directory, the transport of a job, the primitives below
-- Crypto, what the host answers to a call. Their hypotheses are those of Crypto.Envelope: AES-GCM
-- opens what it sealed, base64 and UTF-8 are read back. Channel also takes its cipher, which
-- Crypto makes, and the estimate of the round trip, which the program keeps in floating point. Two
-- hypotheses go with them: the cipher opens what it sealed and seals nothing to an empty text, and
-- the retransmission timeout has a bound.
--
-- Bounds and fuel: `chunks` runs on the length of the buffer, which is enough since each round takes
-- at least one byte. The loop that cuts a file has one round for each byte and one more, each round
-- taking at least a byte. The loop of `glob_match` has fuel for each character in each position of
-- the pattern, and twice more. The retry loop of a job runs on fuel and says `none` where it runs
-- out; fuel for `max_retries + 1` passes is enough. Everything else is structural recursion.
--
-- Not modelled: two handlers that run at once on one room (each is one step here, where the program
-- interleaves them at its map operations), sockets, tasks and files, compression, hole punching, the
-- protobuf conversion, processes and git, and the MCP server. The paths are those of Unix. The worker
-- and the npm package are in other languages.
pub mod Prelude
pub mod Assoc
pub mod Udp
pub mod Relay
pub mod MapReduce
pub mod Safety
pub mod Sync
pub mod Transfer
pub mod Executor
pub mod Scheduler
pub mod Exclude
pub mod Crypto
