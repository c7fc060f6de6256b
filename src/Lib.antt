-- ===== src/Lib.antt =====
-- whyslow finds out why a Linux process was slow. Programs in the kernel record when a thread of
-- the process blocks, waits on or wakes a futex, and has a block I/O request done; the command line
-- collects these events through a ring buffer, writes them to a trace file, and infers from them
-- which thread was blocked by what. This library models the code of the repository and proves what
-- makes it correct. Paths are from the root of the repository.
--
-- The parts, and the files that model them:
--
-- Event models whyslow-common/src/lib.rs: `Event` with its type tags (Event/Schema, where `InRange`
-- states the ranges of the fields' integer types) and `pack_block_key` with `unpack_block_key`
-- (Event/Schema, theorems in Event/BlockKey).
--
-- Ebpf models whyslow-ebpf/src: the raw records and constants of vmlinux.rs (Ebpf/Raw) and the five
-- programs of main.rs over their maps, the target's slot and the ring buffer (Ebpf/Probes: `Probes`
-- is the state, `probe` one run of a program, `after` a history of runs, newest first). Ebpf/Kernel
-- holds what aya and the kernel give as interfaces with their documented laws: hash maps whose
-- insert may be refused, and a ring buffer that may be full; `queued` is all that was submitted, in
-- order. Ebpf/History says what a history means for threads without any map; Ebpf/Invariant,
-- Switch, Futex, BlockIo and Sound prove that the maps and the events agree with it; Footprint,
-- BlockEntry, Span, FutexSpan and IoSpan are about what is recorded of a span that begins and ends;
-- FutexOp classifies futex operations. Ebpf/Reference says what should be recorded of a history by
-- looking back in it, and Exact, Ends and Refines compare the programs with it where nothing is
-- refused. Append is about what the programs leave in the ring buffer, Ranges about the ranges of
-- the events' fields. Concrete has executable instances of the interfaces for the tests.
--
-- Bpf models whyslow-cli/src/bpf.rs: `set_target_tgid` (Bpf/Target), `load_and_attach` over the
-- answers to its calls (Bpf/Load), `decode_event` and the layout of an event in memory (Bpf/Layout:
-- `repr(C)` on a little-endian machine with 64-bit words, 56 bytes with four of padding at the
-- end), and `drain_ring_buffer` (Bpf/Drain) over a list of rounds, each the items that `next` gives
-- before `None` and the answer of `should_stop`. Bpf/Session puts the programs and the target
-- together, and Bpf/Complete compares a session with the reference. Bpf/Live has the reader's end
-- of the ring buffer, where hits of the programs come between the calls that take from it, and
-- Bpf/Rounds the rounds of the drain over it.
--
-- Child models whyslow-cli/src/child.rs over the answers of `fork`, `exec`, `waitpid` and `ptrace`.
--
-- Main models whyslow-cli/src/main.rs: Main/Effects has the effects of a command and the world that
-- answers its calls; Main/Commands has `run`, `attach` and `explain_cmd` in the order of the
-- source, with every early return and every panic: the state in which setting the target leaves the
-- programs is passed on, and what the drain finds depends on it. Main/Order and Main/Outcome are
-- about what `run` does, Main/Polling about its drain, Main/Stopping about when `attach` stops and
-- Main/Attach about what it does, Main/Whole, Main/Live and Main/Watching put the two together with
-- the programs and the drain, Main/Cli has the commands with their defaults, `try_main` and what
-- `main` reports, Main/Printing, Main/Reporting, Main/Reports and Main/Exit are about how a command
-- ends, and Main/Reread about the file that it leaves and what `explain` makes of it.
--
-- Trace models whyslow-cli/src/trace.rs: `TraceEvent`, its conversion from `Event`, `TraceFile`,
-- the clock anchor and wall-clock time (Trace/Defs, theorems in Trace/Wall and Trace/Comm), and
-- `write_to` and `read_from` over the files of a disk (Trace/Disk). What serde_json makes of a
-- trace is a parameter, of which only one theorem assumes that it reads back what it wrote;
-- Trace/Concrete has an instance. Two paths are the same file exactly if they are the same text.
--
-- Causal models whyslow-cli/src/causal.rs: the partition by type and the two searches
-- (Causal/Nearest), the classification of causes (Causal/Classify), device names with their cache
-- (Causal/Device), the texts (Causal/Format), the walk (Causal/Walk), the choice of the longest
-- stalls (Causal/Ranking), and `explain` with `print_chains` (Causal/Explain). Window, Cause,
-- Story, Shape, Report and Unique prove what they return. Causal/Env has what the code takes from
-- the system: local time, symbolic links, the terminal, and the floating point operations of its
-- texts. Nothing is assumed of them.
--
-- Synthetic models synthetic/src/main.rs: Synthetic/Mutex has the steps of `lock` and `unlock` for
-- any number of threads over one word, Exclusion and Wakeup their theorems. Synthetic/Read has the
-- direct read with its buffer over the answers of the system, and Synthetic/Program the steps of
-- `main` and its two threads: a statement that touches nothing shared belongs to the step next to
-- it. Sound and Moves say where the mutex has a thread at each place, Order in what order they go
-- on, Reads that the holder has read, Ids that a thread stores its own id, and Done and Progress
-- are about the whole program.
--
-- Ui models whyslow-cli/src/ui.rs: colours and the banner. Build models whyslow-cli/build.rs: the
-- package that is built.
--
-- Base has the shared names, lemmas on lists, bit operations, UTF-8 with replacement characters,
-- decimal and hexadecimal texts, the signed integers of the wall-clock computation, and results.
--
-- A `u64`, `u32` or `u8` is a native number; where the source wraps, the remainder is written out,
-- and `saturating_sub` is the subtraction of the native numbers. The walk of a causal chain runs on
-- fuel: it is given the depth limit 8, one unit to a hop, and stops at that limit by itself.
-- Decimal texts have fuel for the 20 digits of a 64-bit number and hexadecimal ones for 16. Loops
-- that wait for the outside (`wait_until_stopped` and the drain) run over the list of answers that
-- they get, and say so where the list ends before they do.
--
-- A `println!` panics where the standard output does not take its line, and so does the addition
-- for a deadline that is out of the range of the clock; a panic of a command is a result of its
-- own, with the exit code 101. The lines that were taken before are printed.
--
-- Not modelled: the message of a panic, and a standard error that does not take a line; signals but
-- the SIGINT that `attach` handles, and what the kernel does with a traced child when whyslow ends
-- before it has resumed it; how clap splits the command line into arguments; the interleaving of
-- two runs of eBPF programs on one map entry (a run is one step); the memory orderings of the
-- reproducer's atomics, which are taken as sequentially consistent; whyslow-ebpf/build.rs, the
-- integration test and the packaging.
pub mod Base
pub mod Bpf
pub mod Build
pub mod Causal
pub mod Child
pub mod Ebpf
pub mod Event
pub mod Main
pub mod Synthetic
pub mod Trace
pub mod Ui
