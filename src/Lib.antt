-- ===== src/Lib.antt =====
-- A model of the core of this repository, a solo miner for Bitcoin with its own pool, and the
-- theorems that make it correct.
--
-- The parts, and how they interact. A node gives a block template (crates/bitcoind-rpc). The pool
-- (crates/solo-pool) makes a job of it: it builds the coinbase around a sentinel (crates/mining),
-- splits its witness-free bytes (crates/btc-primitives) where the sentinel stands, and sends both
-- halves with the merkle branch as a Stratum job (crates/stratum). A miner splices its extranonce into
-- the halves, folds the branch to a merkle root, and searches the nonces of the header, over the
-- midstate of SHA-256 (crates/sha256d), batch by batch (crates/mac-miner). The pool rebuilds the header
-- of a share, judges its hash, and submits the block to the node. crates/blk-scan reads the node's files.
--
-- Which file models which part. The module of a source file has its name; the modules below it hold
-- the proofs, and Tests modules the concrete runs.
--   Sha256d/ : crates/sha256d/src: Padding, Constants, Reference, Midstate; sha256 and sha256d of
--     lib.rs, where the processor has no SHA instructions.
--   BtcPrimitives/ : crates/btc-primitives/src: Varint, Hash (text: Hash/Text), Target, Merkle, Header,
--     Hex, Reader, Transaction.
--   Mining/ : crates/mining/src: Script, Coinbase, Witness, Block, Search.
--   Stratum/ : crates/stratum/src: ByteOrder, Job, Share, Message; Text has the names of lib.rs, Value
--     the values of JSON, and Hex32 and Params what jobs and shares read and write alike.
--   BitcoindRpc/ : crates/bitcoind-rpc/src: Template, Network (with the state of the chain),
--     Auth (cookie and base64), Client (the calls; HTTP and JSON are parameters) with the names in Text.
--   SoloPool/ : crates/solo-pool/src: JobBuilder, Validate, State, Session, Readiness, MinDifficulty;
--     Poller is poll_templates of main.rs.
--   MacMiner/ : crates/mac-miner/src: Work, Worker, Stats, Lifetime; Install is what main.rs decides.
--     Accepted joins both sides: from the pool's job over the miner's round to the pool's check.
--   BlkScan/ : crates/blk-scan/src: Obfuscation, Scan.
--   RegtestMiner/ : crates/regtest-miner/src: Round.
--   Base/ : what all share: Boolean tests, lists over the native numbers, bytes, slices, results.
--
-- How code is rendered. An unsigned integer of w bits is a number below 2^w, with its wrap-around
-- written out; an i32 that is only copied is its bit pattern. Bytes are lists of numbers, and that they
-- are bytes is a hypothesis (IsBytes, IsArray, IsHeader, IsTransaction). A method that changes its
-- object returns the new one; Result is a data type with the chain ?; a panic that can come up is none
-- or an error named panicked. The i32 power of from_compact and the i64 wait of check are written with
-- subtraction that stops at 0, behind the test that the source makes.
--
-- Loops and fuel. pad fills at most 63 zeros and has 64 rounds. The loops of the merkle tree have a
-- round for each leaf, and each halves the level. encode_script_number has four rounds for the four
-- bytes of a u32. The loop of search runs over the length of its range, and the
-- sweep of a thread over 2^12 batches of 2^20 nonces. The scan of a file has a round for each byte and
-- one more, and each is eight bytes further. All others follow a list or a count.
--
-- Interleavings. MacMiner/Work has a step for each access to the shared work, so that a snapshot has
-- two; the theorems hold for every order of the steps. The checks of a miner's thread for new work are
-- answered from outside, by any function of their number. The poller's rounds are interleaved with any
-- steps of the sessions that leave the jobs alone; a session's lines are handled one after the other.
--
-- What is not modelled, and why. crates/sha256d/src/neon.rs is intrinsics of one processor. Target
-- difficulty, the hash rates and the odds are floating-point numbers for display. Sockets, files,
-- clocks, the console and the arguments are left out: what they give is an argument. serde_json and
-- what its derive makes are parameters, with the values of JSON as they are documented; so is the
-- node, a function of the block. The texts of errors and of the log are left out. Of crates/blk-scan
-- the summary of the records, and main.rs of crates/regtest-miner are left out.
pub mod Base
pub mod Sha256d
pub mod BtcPrimitives
pub mod MacMiner
pub mod Mining
pub mod BitcoindRpc
pub mod Stratum
pub mod BlkScan
pub mod SoloPool
pub mod RegtestMiner
