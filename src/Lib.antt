-- ===== src/Lib.antt =====
-- GB10X: models and proofs of the host-independent core of the GB10X inference engine.
--
-- The program. GB10X runs one model (Qwen3.8-Flash-Next) on one machine (NVIDIA GB10). For each
-- token it computes 16 rows of the PLE tables: crates/gb10x-core/src/ple_hash.rs holds the hash plan
-- (`PleHashPlan`) and the window of left context (`PleTokenWindow`), with transactions for
-- speculative tokens; qwen38.rs pins the configuration of the model. The rows are stored by
-- crates/gb10x-ple: layout.rs places the hot rows of a trace in blocks (`plan_exact_layout`),
-- format.rs and disk.rs hold the header and the index entries of the sidecar file, source.rs reads
-- the exact rows of a flat file, writer.rs publishes a sidecar of the hot rows, and reader.rs reads
-- rows from it, or from the source where they are not hot. crates/gb10x-runtime admits the platform
-- (validate.rs, over the facts of crates/gb10x-core/src/platform.rs), assigns keys to CPU owners and
-- plans their L2 budgets (cache_fabric.rs), and resolves the tier of a key from such a plan
-- (ple_hydra.rs). crates/gb10x-telemetry/src/record.rs validates the evidence record of a run.
--
-- The files.
-- - Prelude: tests, lists, `Result` with a case for a panic, sorting, texts, doubles and checks that
--   decide a property.
-- - Core/Window, Core/Hash: ple_hash.rs. Window/History has the abstract view, a history of tokens
--   with a saved one; Window/Transactions the laws of transactions; Hash/Plan the accepted plans;
--   Hash/Rows the rows of a token. Core/Platform: platform.rs.
-- - Core/Qwen: qwen38.rs. Qwen/Json has the parsing of a JSON value, whose accessors are parameters,
--   with Qwen/Values; Qwen/Contract is about the validation and Qwen/Sizes about the derived sizes.
-- - Ple/Format, Ple/Disk, Ple/Bytes: format.rs and disk.rs. Disk/RoundTrip, Disk/Reads,
--   Disk/Canonical and Disk/Index have the proofs.
-- - Ple/Layout: layout.rs, with the scan of the trace (Scan), the placements and the whole plan.
-- - Ple/Source: source.rs; the file's contents and the SHA-256 digest are arguments.
-- - Ple/Reader: reader.rs over such a source. Reader/Index has the accepted indexes, Reader/Open the
--   opened sidecars, Reader/Search the binary search, Reader/Reads the reads and Reader/Verify the
--   verification; Reader/Flat takes a flat file as the source.
-- - Ple/Files: the operations on files that writer.rs uses, as steps on a list of files and a list
--   of faults, of which each operation takes one; Files/Steps and Files/Operations have their laws.
-- - Ple/Writer: writer.rs, with the part that touches files in Writer/Publish. Writer/Checks,
--   Entries, LaidOut and Planned are about what is written, Effects, Filled, Headed and Complete
--   about the bytes of the file, Temporary, Replace and Atomic about the files, Success about runs
--   without faults, and RoundTrip joins the writer and the reader.
-- - Runtime/Probe: the parsers of linux_probe.rs, with Probe/CpuLists.
-- - Runtime/Validate, Runtime/CacheFabric, Runtime/PleHydra: the files of the same names.
-- - Telemetry/Record, Telemetry/Validate: record.rs.
-- The modules named Tests run the definitions and apply the theorems at concrete inputs.
--
-- The conventions. Machine integers are natural numbers, and a `usize` has 64 bits; a checked
-- operation returns an Option, a wrapping one has its remainder written out, and a plain addition
-- that overflows, a division by zero and an index out of bounds are a `panic`. A method on `&mut
-- self` returns the state that it leaves and its result. Arrays, vectors and sets are lists, a map
-- is an association list. A `str` is the list of its characters, an `f64` its 64 bits; the texts of
-- static error messages are strings.
--
-- Loops are structural recursion on the list that the source iterates, or on the number of rounds
-- that a fixed range has. Only the binary search of reader.rs takes fuel: one more than the number
-- of hot rows, which is enough, since each round narrows the range by one at least.
--
-- Not modelled. In qwen38.rs the file and the JSON text, and `rotary_dim`, which rounds a product of
-- doubles; in crates/gb10x-runtime/src/linux_probe.rs the reading of /proc and /sys, the cache tree,
-- and the CPU model and memory size; and crates/gb10x-tools, which handles command lines. Derived code (serde, Debug, the texts of errors)
-- is left out.
pub mod Prelude
pub mod Core
pub mod Ple
pub mod Telemetry
pub mod Runtime
