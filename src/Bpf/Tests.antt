-- ===== src/Bpf/Tests.antt =====
-- Concrete runs of sessions and of the drain loop, and the theorems applied to them.
use whyslow.Base.{ℕ, ◌+◌, ◌*◌, ◌^◌, ◌≡◌, refl, none, some, List, [], ◌∷◌, arith, All, replicate}
use whyslow.Base.Result.{found}
use whyslow.Event.Schema.{new, event_sched_block, event_futex_wait, event_block_io, pack_block_key}
use whyslow.Ebpf.Raw.{
  TraceEntry, TraceEventRawSchedSwitch, TraceEventRawSysEnter, TraceEventRawBlockRq,
  TraceEventRawBlockRqCompletion,
}
use whyslow.Ebpf.Kernel.{Helpers}
use whyslow.Ebpf.Probes.{
  Probes, loaded, Hit, sched_switch, futex_enter, futex_exit, block_rq_issue, block_rq_complete,
  current_tgid, current_tid, current_comm, event_type_of, target_tgid, emit, put_block, put_futex,
  put_io, switch_out, switch_in, try_sched_switch, try_futex_enter, try_futex_exit,
  try_block_rq_issue, try_block_rq_complete, probe, after,
}
use whyslow.Ebpf.History.{Emitted}
use whyslow.Ebpf.Sound.{BeganAt, IsOrdered}
use whyslow.Ebpf.Concrete.{maps}
use whyslow.Bpf.Target.{set_target_tgid}
use whyslow.Ebpf.Refines.{HasRoomThroughout}
use whyslow.Ebpf.Reference.{events_of}
use whyslow.Bpf.Complete.{session-events_of}
use whyslow.Ebpf.Room.{few-HasRoom}
use whyslow.Bpf.Session.{session, session-Emitted, session-BeganAt}

abbrev app : List ℕ
app = 97 ∷ 112 ∷ 112 ∷ replicate 13 0

abbrev entry : TraceEntry
entry = record { kind = 1; flags = 0; preempt_count = 0; pid = 0 }

-- The thread `tid` of the process 100 runs at the time `now`.
abbrev running : ℕ → ℕ → Helpers
running tid now = record { pid_tgid = 100 * 2 ^ 32 + tid; ktime_ns = now; comm = some app }

abbrev switch : ℕ → ℕ → ℕ → TraceEventRawSchedSwitch
switch prev state next = record {
  ent = entry;
  prev_comm = app;
  prev_pid = prev;
  prev_prio = 120;
  prev_state = state;
  next_comm = app;
  next_pid = next;
  next_prio = 120;
}

abbrev wait_call : TraceEventRawSysEnter
wait_call = record {
  ent = entry;
  id = 202;
  arg0 = 0x7f00;
  arg1 = 128;
  arg2 = 2;
  arg3 = 0;
  arg4 = 0;
  arg5 = 0;
}

abbrev request : TraceEventRawBlockRq
request = record {
  ent = entry;
  dev = 5;
  sector = 64;
  nr_sector = 8;
  bytes = 4096;
  ioprio = 0;
  rwbs = [];
  comm = app;
  data_loc_cmd = 0;
}

abbrev completion : TraceEventRawBlockRqCompletion
completion = record {
  ent = entry;
  dev = 5;
  sector = 64;
  nr_sector = 8;
  error = 0;
  ioprio = 0;
  rwbs = [];
  data_loc_cmd = 0;
}

-- Newest first: the thread 102 reads a block while 101 waits on a futex and is switched out.
abbrev hits : List Hit
hits =
    futex_exit (running 101 950)
    ∷ sched_switch (running 102 900) (some (switch 102 1 101))
    ∷ block_rq_complete (running 0 800) (some completion)
    ∷ block_rq_issue (running 102 400) (some request)
    ∷ sched_switch (running 101 300) (some (switch 101 1 102))
    ∷ futex_enter (running 101 200) (some wait_call)
    ∷ []

abbrev before : List Hit
before = futex_enter (running 101 100) (some wait_call) ∷ []

session_run :
    (session maps 100 before hits).events
    ≡ new 800 400 (pack_block_key 5 64) 100 102 event_block_io app
      ∷ new 900 600 0 100 101 event_sched_block app
      ∷ new 950 750 0x7f00 100 101 event_futex_wait app
      ∷ []
unfolding session set_target_tgid after probe try_sched_switch switch_out switch_in try_futex_enter
    try_futex_exit try_block_rq_issue try_block_rq_complete put_block put_futex put_io emit
    target_tgid current_tgid current_tid current_comm event_type_of pack_block_key
session_run = refl

session-Emitted_example :
    All
      (λ ev. (ev.pid ≡ 100) × Emitted 100 ev hits)
      (maps.ring.queued (session maps 100 before hits).events)
session-Emitted_example = session-Emitted maps 100 before hits refl

session-BeganAt_example :
    All (λ ev. BeganAt 100 ev hits) (maps.ring.queued (session maps 100 before hits).events)
session-BeganAt_example = session-BeganAt maps 100 before hits refl ordered
  where
    ordered : IsOrdered hits
    ordered = search arith

abbrev begun : Probes maps
begun = (set_target_tgid maps found none 100 (after maps (loaded maps) before)).0

begun-HasRoom : HasRoomThroughout maps begun hits
unfolding set_target_tgid after probe try_sched_switch switch_out switch_in try_futex_enter
    try_futex_exit try_block_rq_issue try_block_rq_complete put_block put_futex put_io emit
    target_tgid current_tgid current_tid current_comm event_type_of pack_block_key
begun-HasRoom = (
  few-HasRoom _ refl,
  (
    few-HasRoom _ refl,
    (few-HasRoom _ refl, (few-HasRoom _ refl, (few-HasRoom _ refl, (few-HasRoom _ refl, tt)))),
  ),
)

session-events_of_example :
    maps.ring.queued (session maps 100 before hits).events ≡ events_of 100 hits
session-events_of_example = session-events_of maps 100 before hits refl begun-HasRoom
