-- ===== src/Lib.antt =====
-- Kiliax is a coding agent: a loop that sends a conversation to a language model and runs the tools
-- that the model calls. This library models the core of it, in crates/kiliax-core,
-- crates/kiliax-llm and crates/kiliax-server.
--
-- Parts, and how they interact:
-- - Protocol (crates/kiliax-llm/src/types.rs, tool_names.rs): `Message` and its parts, with the
--   constructors of the source; `FinishReason` and tool names on the wire (Protocol/Wire).
-- - History (crates/kiliax-core/src/history.rs): `sanitize_history_for_next_request`, which repairs
--   the history before each request. Clean says what a provider accepts, Stable that the repair
--   leaves that alone, Kept what the repair keeps and counts.
-- - Session (crates/kiliax-core/src/session.rs): the session store. State has the records; Apply is
--   `apply_event` and Title the titles; Ids and Entries are its invariant and its view as a list of
--   entries; Page is `read_message_page`; Store has the directory (Disk), `record_event` and
--   `checkpoint` (Record), `load` and the replay of the log (Load), `create` and the goals (Create).
--   Store/Settle, Recover, Restart and Torn hold what is proved of the store.
-- - Compact (crates/kiliax-core/src/compact.rs): token estimates (Tokens), truncation (Truncate),
--   what a compaction keeps (Select, Summary), what it leaves out to fit the window (Drop), and the
--   loop `run_compaction` (Drop/Run), which sends histories that History has repaired.
-- - Tools: `group_tool_calls` and `normalize_tool_call_ids` (runtime/tool_calls.rs), shell
--   permissions (tools/mod.rs), the policy for the editing tools (tools/policy.rs), the rules for
--   paths (tools/builtin/common.rs, in Paths), the replacement of a text (tools/builtin/edit_file.rs,
--   in Edit), and the overrides of a session for MCP servers (mcp_overrides.rs), all in
--   crates/kiliax-core/src.
-- - Patch (crates/kiliax-core/src/tools/builtin/apply_patch.rs): Parse reads the text of a patch,
--   Plan works the operations out on planned states of the paths, with the hunks of Hunks on the
--   lines of Lines, Disk writes the states and puts them back when a write fails, Execute is the
--   tool as a whole, and Diff is the diff that it reports.
-- - Agents (crates/kiliax-server/src/state/multi_agent.rs): the control of the agents of a server.
--   Paths has the paths of agents, State the registry and the reservations, Resolve the targets and
--   the closing of agents, Mailbox the mailboxes, Wait the wait for updates in its turns; Steps has the
--   steps of the control and the states that they reach.
-- - Live (crates/kiliax-server/src/state): the preamble of a live session (preamble.rs) and the
--   context for the model (live_session.rs), which starts at the checkpoint of Session.
-- - Result: results of functions that can fail.
-- - Prelude and Text: lists, options, tests and machine numbers; strings as lists of Unicode scalars
--   with their lengths in UTF-8, and the methods of `str` that the code calls.
--
-- How the code becomes definitions. A method that changes `self` or a `&mut` argument takes the
-- state and gives the new one. The directory of a session is a record of three files; a file that
-- is renamed into place is replaced as a whole or not at all, and an append to the log is written,
-- fails, or stops in the middle (`Append`). Each operation takes as `Faults` which of its writes
-- fail; in `create` all succeed. The clock, fresh keys and the project prompt on disk are arguments.
-- serde_json is the record `Json`, of which only this is assumed: an event or a snapshot that was
-- written is read back, and a written event is not a blank line. A line of the log is UTF-8: one that
-- is cut within a character, on which the code's `read_line` fails, is not among them. `J` stands for a JSON value.
-- For a patch a path stands for a file by an argument, in the code the rules for paths of
-- Tools/Paths, which may give two spellings one file; a write ends whole, or with
-- an error that leaves something else at the path (`Write`). What the file system says of a path is an
-- argument of the rules for paths. The operations of the control of agents hold its lock, and each is one
-- step (`Step`), but for a wait, which goes on in turns with other tasks' operations between them
-- (`Event`); `HashMap` and `BTreeMap` are lists of keys and values. A live session is a parameter.
-- The model that summarises, the test for an exceeded context window and the custom tools that are
-- found on disk are arguments as well.
--
-- Numbers. Sequence numbers, times and lengths are natural numbers: an overflow of 64 bits is out of
-- reach there. Where the code saturates, the definition does so at 2 ^ 64 - 1; a `usize` has 64 bits.
-- Loops over a queue that shrinks recur on the length of the queue. The loops of the parser of patches
-- have the number of the lines for fuel, and each round takes one; the search for an existing ancestor
-- has the number of the components, and `str::replace` and `trim_start_matches` that of the
-- characters. Every function is total.
--
-- Not modelled. Of session.rs: `list` and `delete`, which walk directories, the checks that the
-- files exist before a page is read, the reading of the log in blocks from its end (Page takes the
-- parsed lines), and the temporary names of atomic writes. Of multi_agent.rs: the list of agents,
-- the duration of a wait (each turn is told whether the deadline is over; the sender of the channel that wakes it is there as
-- long as the control), and the backend that forwards to the live session; of live_session.rs all but
-- the context for the model; of edit_file.rs the candidates that are tried when the given text is not
-- found, which are an argument. The agent loop (runtime.rs), the conversion to the providers' formats,
-- the tools that write whole files, search and run, the routes of the server, the command line,
-- telemetry and the web interface.
pub mod Prelude
pub mod Text
pub mod Protocol
pub mod History
pub mod Compact
pub mod Session
pub mod Tools
pub mod Patch
pub mod Result
pub mod Agents
pub mod Live
