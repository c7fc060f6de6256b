-- ===== src/Ebpf/Tests.antt =====
-- The operations of futex calls on concrete numbers, and the theorems on the programs applied.
use whyslow.Base.{
  ℕ, ◌+◌, ◌*◌, ◌^◌, ◌≡◌, refl, none, some, List, [], ◌∷◌, arith, replicate, ◌↔◌, ◌⊎◌,
}
use whyslow.Event.Schema.{
  new, event_sched_block, event_futex_wait, event_futex_wake, event_block_io, pack_block_key,
}
use whyslow.Ebpf.Raw.{
  TraceEventRawSchedSwitch, TraceEventRawSysEnter, TraceEventRawBlockRq,
  TraceEventRawBlockRqCompletion,
}
use whyslow.Ebpf.Kernel.{Helpers}
use whyslow.Ebpf.Probes.{
  block_rq_complete, current_comm, try_futex_enter, put_futex, try_block_rq_issue,
  try_block_rq_complete, put_io, Probes, Hit, sched_switch, futex_exit, loaded, event_type_of,
  probe, after, current_tgid, try_futex_exit, try_sched_switch, switch_out, switch_in, target_tgid,
  put_block, current_tid,
}
use whyslow.Ebpf.FutexOp.{IsFlagged, event_type_of_lem}
use whyslow.Ebpf.FutexSpan.{in_call, futex-recorded}
use whyslow.Ebpf.IoSpan.{in_flight, io-recorded}
use whyslow.Ebpf.Span.{switch-recorded}
use whyslow.Ebpf.Concrete.{maps}

event_type_of_lem_example :
    ((event_type_of 137 ≡ some event_futex_wait) ↔ (IsFlagged 0 137 ⊎ IsFlagged 9 137))
    × ((event_type_of 137 ≡ some event_futex_wake) ↔ (IsFlagged 1 137 ⊎ IsFlagged 10 137))
    × ((event_type_of 137 ≡ none)
        ↔ (¬ IsFlagged 0 137 × ¬ IsFlagged 9 137 × ¬ IsFlagged 1 137 × ¬ IsFlagged 10 137))
event_type_of_lem_example = event_type_of_lem 137 (omega arith)

abbrev tracing : Probes maps
tracing = record (loaded maps) { target = some 100 }

abbrev comm_of_all : List ℕ
comm_of_all = replicate 16 97

abbrev switch : ℕ → ℕ → TraceEventRawSchedSwitch
switch prev next = record {
  ent = record { kind = 1; flags = 0; preempt_count = 0; pid = 0 };
  prev_comm = comm_of_all;
  prev_pid = prev;
  prev_prio = 120;
  prev_state = 1;
  next_comm = comm_of_all;
  next_pid = next;
  next_prio = 120;
}

abbrev running : ℕ → ℕ → Helpers
running tid now = record { pid_tgid = 100 * 2 ^ 32 + tid; ktime_ns = now; comm = none }

abbrev between : List Hit
between = sched_switch (running 102 600) (some (switch 102 103)) ∷ futex_exit (running 102 500) ∷ []

abbrev waiting : Probes maps
waiting =
    after maps (probe maps (sched_switch (running 101 400) (some (switch 101 102))) tracing).0
      between

switch-recorded_example :
    ((probe maps (sched_switch (running 103 900) (some (switch 103 101))) waiting).0.events
      ≡ new 900 500 0 100 101 event_sched_block comm_of_all ∷ [])
    × (maps.blocks.get 101
          (probe maps
            (sched_switch (running 103 900) (some (switch 103 101)))
            waiting).0.block_start
        ≡ none)
unfolding current_tgid target_tgid after probe try_sched_switch try_futex_exit switch_out switch_in
    put_block current_tid
switch-recorded_example =
    switch-recorded maps tracing (running 101 400) (running 103 900) (switch 101 102)
      (switch 103 101) between ((101, record { ts = 400; tgid = 100; comm = comm_of_all }) ∷ [])
      (new 900 500 0 100 101 event_sched_block comm_of_all ∷ []) refl (ground arith) (ground arith)
      refl (ground arith) (search arith) (ground arith) refl refl

abbrev wake_call : TraceEventRawSysEnter
wake_call = record {
  ent = record { kind = 1; flags = 0; preempt_count = 0; pid = 0 };
  id = 202;
  arg0 = 0x7f00;
  arg1 = 129;
  arg2 = 1;
  arg3 = 0;
  arg4 = 0;
  arg5 = 0;
}

abbrev in_the_call : Probes maps
in_the_call =
    in_call maps tracing (running 101 400) (running 101 900) wake_call
      (futex_exit (running 102 500) ∷ [])

futex-recorded_example :
    ((probe maps (futex_exit (running 101 900)) in_the_call).0.events
      ≡ new 900 500 0x7f00 100 101 event_futex_wake (replicate 16 0) ∷ [])
    × (maps.futexes.get 101 (probe maps (futex_exit (running 101 900)) in_the_call).0.futex_start
        ≡ none)
unfolding current_tgid target_tgid after probe try_futex_enter try_futex_exit put_futex current_tid
    current_comm event_type_of
futex-recorded_example =
    futex-recorded maps tracing (running 101 400) (running 101 900) wake_call
      (futex_exit (running 102 500) ∷ [])
      ((101, record { ts = 400; uaddr = 0x7f00; op = 129; tgid = 100; comm = replicate 16 0 }) ∷ [])
      (new 900 500 0x7f00 100 101 event_futex_wake (replicate 16 0) ∷ []) event_futex_wake refl
      (ground arith) refl (search arith) refl refl refl

abbrev read_request : TraceEventRawBlockRq
read_request = record {
  ent = record { kind = 1; flags = 0; preempt_count = 0; pid = 0 };
  dev = 5;
  sector = 64;
  nr_sector = 8;
  bytes = 4096;
  ioprio = 0;
  rwbs = [];
  comm = [];
  data_loc_cmd = 0;
}

abbrev completed : ℕ → TraceEventRawBlockRqCompletion
completed sector = record {
  ent = record { kind = 1; flags = 0; preempt_count = 0; pid = 0 };
  dev = 5;
  sector = sector;
  nr_sector = 8;
  error = 0;
  ioprio = 0;
  rwbs = [];
  data_loc_cmd = 0;
}

abbrev other_completes : List Hit
other_completes = block_rq_complete (running 0 500) (some (completed 72)) ∷ []

abbrev reading : Probes maps
reading =
    in_flight maps tracing (running 101 400) (running 0 900) read_request (completed 64)
      other_completes

io-recorded_example :
    ((probe maps (block_rq_complete (running 0 900) (some (completed 64))) reading).0.events
      ≡ new 900 500 0x5_0000_0040 100 101 event_block_io (replicate 16 0) ∷ [])
    × (maps.ios.get 0x5_0000_0040
          (probe maps
            (block_rq_complete (running 0 900) (some (completed 64)))
            reading).0.blockio_start
        ≡ none)
unfolding current_tgid target_tgid after probe try_block_rq_issue try_block_rq_complete put_io
    current_tid current_comm pack_block_key
io-recorded_example =
    io-recorded maps tracing (running 101 400) (running 0 900) read_request (completed 64)
      other_completes
      ((0x5_0000_0040, record { ts = 400; tgid = 100; tid = 101; comm = replicate 16 0 }) ∷ [])
      (new 900 500 0x5_0000_0040 100 101 event_block_io (replicate 16 0) ∷ []) refl (ground arith)
      refl (search arith) refl refl
