-- ===== src/Causal/Tests.antt =====
-- The chain of the README, and the theorems at it.
use whyslow.Base.{
  ℕ, ◌+◌, ◌*◌, ◌/◌, ◌%◌, ◌≤◌, ◌≡◌, refl, ◌↔◌, Bool, true, false, none, some, List, [], ◌∷◌, ◌++◌,
  map, arith, ◌==◌, min, length, keep_if, All, Elem, LastMaxOf, FirstMinOf, max_by_key, min_by_key,
}
use mathlib.Core.List.{Perm}
use whyslow.Base.Text.{codes, decimal, hex, padded}
use whyslow.Base.Utf8.{from_utf8_lossy}
use whyslow.Ui.Paint.{paint}
use whyslow.Event.Schema.{unpack_block_key}
use whyslow.Trace.Defs.{TraceEvent, TraceFile, wall_ns_for}
use whyslow.Causal.Nearest.{
  Typed, partition, nearest_preceding, nearest_following, end_of, max_chain_depth,
}
use whyslow.Causal.Window.{
  InWindowBefore, InWindowAfter, nearest_preceding_iff, nearest_following_iff, partition_lem,
}
use whyslow.Causal.Classify.{classify_resume_cause, classify_prior_cause}
use whyslow.Causal.Cause.{
  ExplainsResume, ExplainsPrior, classify_resume_cause-ExplainsResume,
  classify_prior_cause-ExplainsPrior,
}
use whyslow.Causal.Env.{Env}
use whyslow.Causal.Device.{DevNames, no_names, file_name, resolve, name, IsFaithful, name-resolve}
use whyslow.Causal.Format.{
  format_wall_time, format_duration, futex_text, block_io_text, headline, headline_unknown,
  woken_line, blocked_line,
}
use whyslow.Causal.Walk.{waker, before_wake, io_text, continue_from, walk_from_futex_wait}
use whyslow.Causal.Ranking.{
  slowest_blocks, passed_over, LongestFirst, lasting, sort_by_duration, slowest_blocks_lem,
  slowest_blocks-stable,
}
use whyslow.Causal.Story.{Hop, render, Tells, walk_from_futex_wait-Tells}
use whyslow.Causal.Shape.{Links, walk_from_futex_wait-Links}
use whyslow.Causal.Explain.{Chain, explain, explain_one_stall, lines_of, print_chains}
use whyslow.Causal.Report.{AllTold, IsShort, explain-size}
use whyslow.Causal.Unique.{explain_iff_AllTold}

-- A pipe, local time in UTC, one device link, and whole seconds for the floating point numbers.
abbrev piped : Env
piped = record {
  F64 = ℕ;
  f64_of = λ n. n;
  f64_div = λ a b. a / b;
  f64_fixed2 = λ n. decimal n ++ codes ".00";
  localtime_r = λ s. record { tm_hour = s / 3600 % 24; tm_min = s / 60 % 60; tm_sec = s % 60 };
  read_link = λ path. some (codes "../../devices/nvme0n1/nvme0n1p2");
  terminal = record { no_color_set = true; is_terminal = false };
}

abbrev event : ℕ → ℕ → ℕ → ℕ → ℕ → TraceEvent
event event_type timestamp_ns duration_ns key tid = record {
  timestamp_ns = timestamp_ns;
  duration_ns = duration_ns;
  key = key;
  pid = 4800;
  tid = tid;
  event_type = event_type;
  comm = codes "demo";
}

abbrev io : TraceEvent
io = event 3 412_000_000 380_000_000 0x0010_3002_0001_5895 4809

abbrev wake : TraceEvent
wake = event 2 412_900_000 10_000 0x7f2a_3c00_1000 4809

abbrev wait : TraceEvent
wait = event 1 413_020_000 412_100_000 0x7f2a_3c00_1000 4821

abbrev blocked : TraceEvent
blocked = event 0 413_000_000 412_000_000 0 4821

abbrev short_block : TraceEvent
short_block = event 0 500_000_000 900_000 0 4809

abbrev demo : TraceFile
demo = record {
  realtime_anchor_ns = 52_327_000_000_000;
  monotonic_anchor_ns = 0;
  events = io ∷ wake ∷ blocked ∷ wait ∷ short_block ∷ [];
}

abbrev typed : Typed
typed = record {
  block = blocked ∷ short_block ∷ [];
  futex_wait = wait ∷ [];
  futex_wake = wake ∷ [];
  block_io = io ∷ [];
}

demo-partition : partition demo.events ≡ typed
unfolding partition
demo-partition = refl

demo_chain : Chain
demo_chain = record {
  lines =
      codes "14:32:07.001 — tid 4821 blocked 412ms on futex 0x7f2a3c001000"
      ∷ codes " ← woken by tid 4809"
      ∷ codes " ← tid 4809 blocked 380ms on block I/O (dev nvme0n1p2, sector 88213)"
      ∷ [];
}

demo-explain : explain piped demo 1 ≡ some (demo_chain ∷ [])
unfolding demo_chain explain explain_one_stall lines_of walk_from_futex_wait waker before_wake
    continue_from io_text partition slowest_blocks sort_by_duration nearest_preceding
    nearest_following max_by_key min_by_key classify_resume_cause classify_prior_cause wall_ns_for
    format_wall_time format_duration futex_text block_io_text headline woken_line blocked_line name
    resolve from_utf8_lossy unpack_block_key decimal hex padded paint
demo-explain = refl

-- A second stall, of the waker, has a cause of its own: none in its window.
short_chain : Chain
short_chain = record {
  lines = codes "14:32:07.499 — tid 4809 blocked 900µs (no correlated cause found)" ∷ [];
}

both-explain : explain piped demo 3 ≡ some (demo_chain ∷ short_chain ∷ [])
unfolding demo_chain short_chain explain explain_one_stall lines_of walk_from_futex_wait waker
    before_wake continue_from io_text partition slowest_blocks sort_by_duration nearest_preceding
    nearest_following max_by_key min_by_key classify_resume_cause classify_prior_cause wall_ns_for
    format_wall_time format_duration futex_text block_io_text headline headline_unknown woken_line
    blocked_line name resolve from_utf8_lossy unpack_block_key decimal hex padded paint
both-explain = refl

empty_report : length (print_chains piped []) ≡ 1
unfolding print_chains
empty_report = refl

device_links :
    (file_name (codes "../../devices/nvme0n1/nvme0n1p2/") ≡ some (codes "nvme0n1p2"))
    × (file_name (codes "../..") ≡ none)
    × (file_name (codes "/") ≡ none)
unfolding file_name
device_links = (refl, refl, refl)

abbrev by_tid : ℕ → TraceEvent → Bool
by_tid tid e = e.tid == tid

explain_iff_AllTold_example :
    (explain piped demo 1 ≡ some (demo_chain ∷ []))
    ↔ AllTold piped demo
        (partition demo.events)
        (slowest_blocks 1 (partition demo.events).block)
        (demo_chain ∷ [])
explain_iff_AllTold_example = explain_iff_AllTold piped demo 1 (demo_chain ∷ [])

walk_from_futex_wait-Tells_example :
    Tells piped typed 1 wait [] (walk_from_futex_wait piped 8 typed wait no_names 1 [])
walk_from_futex_wait-Tells_example =
    walk_from_futex_wait-Tells piped typed 8 wait no_names 1 [] (omega arith) (omega arith) tt

walk_from_futex_wait-Links_example :
    (hops : List Hop) × (names' : DevNames) × (walk_from_futex_wait piped 8 typed wait no_names 1 []
      ≡ some ([] ++ map (render piped) hops, names'))
    × Links typed wait hops
    × (length hops + 2 * 1 ≤ 2 * max_chain_depth + 1)
walk_from_futex_wait-Links_example =
    walk_from_futex_wait-Links piped typed 8 wait no_names 1 [] (omega arith) (omega arith) tt

classify_resume_cause-ExplainsResume_example :
    ExplainsResume 4821 413_000_000 typed (classify_resume_cause 4821 413_000_000 typed)
classify_resume_cause-ExplainsResume_example =
    classify_resume_cause-ExplainsResume 4821 413_000_000 typed

classify_prior_cause-ExplainsPrior_example :
    ExplainsPrior 4809 412_890_000 typed (classify_prior_cause 4809 412_890_000 typed)
classify_prior_cause-ExplainsPrior_example =
    classify_prior_cause-ExplainsPrior 4809 412_890_000 typed

nearest_preceding_iff_example :
    (nearest_preceding typed.block_io 413_000_000 (by_tid 4809) ≡ some io)
    ↔ LastMaxOf (InWindowBefore 413_000_000 (by_tid 4809)) end_of io typed.block_io
nearest_preceding_iff_example = nearest_preceding_iff 413_000_000 (by_tid 4809) typed.block_io io

nearest_following_iff_example :
    (nearest_following typed.futex_wait 413_000_000 (by_tid 4821) ≡ some wait)
    ↔ FirstMinOf (InWindowAfter 413_000_000 (by_tid 4821)) end_of wait typed.futex_wait
nearest_following_iff_example =
    nearest_following_iff 413_000_000 (by_tid 4821) typed.futex_wait wait

partition_lem_example : partition demo.events ≡ record {
  block = keep_if (λ e. e.event_type == 0) demo.events;
  futex_wait = keep_if (λ e. e.event_type == 1) demo.events;
  futex_wake = keep_if (λ e. e.event_type == 2) demo.events;
  block_io = keep_if (λ e. e.event_type == 3) demo.events;
}
partition_lem_example = partition_lem demo.events

explain-size_example :
    (chains : List Chain) × (explain piped demo 3 ≡ some chains)
    × (length chains ≡ min 3 (length (partition demo.events).block))
    × All (IsShort piped) chains
explain-size_example = explain-size piped demo 3

slowest_blocks_lem_example :
    (length (slowest_blocks 1 typed.block) ≤ 1)
    × LongestFirst (slowest_blocks 1 typed.block)
    × Perm (slowest_blocks 1 typed.block ++ passed_over 1 typed.block) typed.block
    × ((a b : TraceEvent)
        → Elem a (slowest_blocks 1 typed.block)
        → Elem b (passed_over 1 typed.block)
        → b.duration_ns ≤ a.duration_ns)
slowest_blocks_lem_example = slowest_blocks_lem 1 typed.block

slowest_blocks-stable_example :
    lasting 900_000 (slowest_blocks 1 typed.block ++ passed_over 1 typed.block)
    ≡ lasting 900_000 typed.block
slowest_blocks-stable_example = slowest_blocks-stable 900_000 1 typed.block

name-resolve_example :
    ((name piped no_names 0x0010_3002).0 ≡ resolve piped 0x0010_3002)
    × IsFaithful piped (name piped no_names 0x0010_3002).1
name-resolve_example = name-resolve piped no_names 0x0010_3002 tt
