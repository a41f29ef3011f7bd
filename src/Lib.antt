-- ===== src/Lib.antt =====
-- The integration crate of CALIBRE: a committee of seven validators certifies transfers of cells
-- by quorum certificates of five votes, and each validator keeps its decisions in an append-only
-- log. The log store (integration001/src/store.rs) and the monetary and quorum model
-- (integration001/src/model.rs) are modelled; a validator process (integration001/src/node.rs)
-- answers requests that come as frames (integration001/src/wire.rs), records each vote in its
-- store before it signs it, and applies transfers that a certificate finalizes.
--
-- Prelude holds what the parts share: tests and lists on native numbers, results, byte strings,
-- association lists, maps in key order, and counting below a bound.
--
-- Store models store.rs. Store/Types has its records and constants, Store/Codec the payloads
-- (encode_snapshot, decode_snapshot, take_*), Store/Record the framing (append_record,
-- wal_checksum and the checks of replay_wal), Store/Replay the functions replay_wal and
-- replay_record, Store/Method the state and error passing of the methods on &mut self, and
-- Store/Append, Store/Activate, Store/Votes, Store/Apply, Store/Retire, Store/Open and
-- Store/Queries the methods of WalStore; Store/Calls puts a call of any of them together. A record
-- of the model has the fields of the struct; HashMap is an association list, and the file is the
-- list of bytes written so far. Store/Recovery relates a store to its file, with a child for each
-- method, for whole runs and for writes cut short; Store/Safety is about votes, locks and terminal
-- states.
--
-- Model models model.rs. Model/Types has its records, Model/Manifest committees and laboratory
-- keys, Model/Transaction cells and transactions, Model/Vote, Model/Certificate and Model/Proposal
-- the messages of the protocol, Model/Ledger the state with apply_finalized, and Model/Root the
-- state root. BTreeMap and BTreeSet are lists in key order. Model/Finality puts certificates and
-- stores together.
--
-- Integers are natural numbers: a cast or wrapping operation of the source is a remainder, a
-- checked operation a test against the largest value, and put_u16, put_u32 and put_u64 keep the
-- low bytes. Byte arrays are lists; a theorem that needs their length says so. The loop of
-- replay_wal runs on fuel, one round for each byte of the log: every round consumes a whole
-- record. The other loops recurse on lists.
--
-- Code of other crates is a parameter: blake3 is a function from bytes to a digest, where needed
-- with digests of 32 bytes, and ed25519_dalek is the rest of the record Keys, where needed with
-- signatures that verify. What a disk does with an append is an argument of each call: it is done,
-- or fails behind some bytes.
--
-- Wire models integration001/src/wire.rs: Wire/Codec its Encoder and Decoder, as functions on the
-- bytes written and the bytes left, Wire/Messages, Wire/States and Wire/Requests the codecs, and
-- Wire/Frames a payload behind its length. Wire/Reads says of a reader that it consumes exactly
-- some bytes and returns a value; the round trips are built from it, with what the Rust types say
-- of widths (Wire/Messages/Typed) as hypotheses.
--
-- Node models integration001/src/node.rs: Node.antt the votes (prevote, precommit and their
-- checks), Node/Shape the checks of states, Node/Apply the application of a finalized transfer,
-- Node/Handle requests and connections, Node/Open and Node/Paths the arguments and
-- NodeServer::open. A connection is the bytes that come in and the bytes that go out
-- (Node/Handle/Connection is about those of one request, Node/Handle/Outcome about any bytes).
-- Node/Voting and Node/Serving relate the votes that leave a server to its store, Node/Ledger its
-- state to apply_finalized, and Node/Restart the server to its log: a state that apply_finalized
-- makes keeps the widths of its types (Typed), its receipts and the applications of the store stay
-- the same (Receipts), and with that every request keeps what opening the log again needs (Ready,
-- Votes, Apply, Requests). Config models the controller's arguments, integration001/src/config.rs.
-- Metrics models the counters, latencies and quoted texts of integration001/src/metrics.rs; a
-- method of the counters is the atomic additions that it makes, which those of other threads may
-- come between.
--
-- Controller models of integration001/src/main.rs the parts that compute: the order that
-- deterministic_permutation shuffles (its state is 64 bits, its shifts remainders), the check
-- verify_observed_votes and the certificates of fixture_finality_chain (Controller/Chain puts them
-- together with the checks that validators make), the fixture of build_fixture with
-- make_main_transfer (Controller/Fixture), and the cases of exhaustive_conflict_safety_cases
-- (Controller/Conflicts).
--
-- Not modelled: the rest of main.rs of the integration crate (its processes, threads and sockets,
-- and the cases built around them), floating point and the report file in metrics.rs, the loop
-- that accepts connections in node.rs, the messages of errors beyond their kind, and the other
-- crates of the repository, which are separate experiments.
pub mod Prelude
pub mod Store
pub mod Model
pub mod Wire
pub mod Node
pub mod Config
pub mod Metrics
pub mod Controller
