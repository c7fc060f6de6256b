-- ===== src/Ebpf/Reference.antt =====
-- whyslow-ebpf/src/main.rs: what the programs should record of a history, newest hit first, by looking
-- back in it: no maps, no ring buffer and nothing lost.
use mathlib.Core.Option
use whyslow.Base.{
  ℕ, ◌-◌, ◌%◌, ◌^◌, Bool, false, Option, none, some, List, [], ◌∷◌, ◌++◌, ◌==◌, if◌then◌else◌,
}
use whyslow.Event.Schema.{Event, new, event_sched_block, event_block_io, pack_block_key}
use whyslow.Ebpf.Raw.{task_running}
use whyslow.Ebpf.Kernel.{Helpers}
use whyslow.Ebpf.Probes.{
  Hit, sched_switch, futex_enter, futex_exit, block_rq_issue, block_rq_complete, BlockStart,
  FutexStart, BlockIoStart, current_tgid, current_tid, current_comm, event_type_of,
}

-- The interval that the hit begins for the thread: the thread is of the target and goes off the CPU
-- in another state than running.
abbrev pub block_begun : ℕ → ℕ → Hit → Option BlockStart
block_begun target tid (sched_switch h (some evt)) =
    if evt.prev_state == task_running
    then none
    else if current_tgid h == target
    then if tid == evt.prev_pid % 2 ^ 32
      then some (record { ts = h.ktime_ns; tgid = target; comm = evt.prev_comm })
      else none
    else none
block_begun target tid _ = none

-- The hit brings the thread onto a CPU.
abbrev pub resumes : ℕ → Hit → Bool
resumes tid (sched_switch h (some evt)) = tid == evt.next_pid % 2 ^ 32
resumes tid _ = false

-- The futex call that the hit begins for the thread.
abbrev pub futex_begun : ℕ → ℕ → Hit → Option FutexStart
futex_begun target tid (futex_enter h (some evt)) =
    if current_tgid h == target
    then if tid == current_tid h
      then some (record {
        ts = h.ktime_ns;
        uaddr = evt.arg0;
        op = evt.arg1 % 2 ^ 32;
        tgid = target;
        comm = current_comm h;
      })
      else none
    else none
futex_begun target tid _ = none

abbrev pub leaves : ℕ → Hit → Bool
leaves tid (futex_exit h) = tid == current_tid h
leaves tid _ = false

-- The request that the hit issues under the key.
abbrev pub io_begun : ℕ → ℕ → Hit → Option BlockIoStart
io_begun target key (block_rq_issue h (some evt)) =
    if current_tgid h == target
    then if key == pack_block_key evt.dev evt.sector
      then some
          (record { ts = h.ktime_ns; tgid = target; tid = current_tid h; comm = current_comm h })
      else none
    else none
io_begun target key _ = none

abbrev pub completes : ℕ → Hit → Bool
completes key (block_rq_complete h (some evt)) = key == pack_block_key evt.dev evt.sector
completes key _ = false

-- The newest hit that begins or ends a span of the key decides whether one is open.
module _ {A : Type 0} (begun : ℕ → Hit → Option A) (ended : ℕ → Hit → Bool) where
  unfoldable pub open_span : ℕ → List Hit → Option A
  open_span key [] = none
  open_span key (hit ∷ older) =
      let rest = open_span key older in
      if ended key hit then none else Option.or_else (begun key hit) rest

abbrev pub open_block : ℕ → ℕ → List Hit → Option BlockStart
open_block target = open_span (block_begun target) resumes

abbrev pub open_futex : ℕ → ℕ → List Hit → Option FutexStart
open_futex target = open_span (futex_begun target) leaves

abbrev pub open_io : ℕ → ℕ → List Hit → Option BlockIoStart
open_io target = open_span (io_begun target) completes

-- The interval that a switch to the thread ends: one that this very switch began, or an open one.
abbrev pub ended_block : ℕ → ℕ → Hit → List Hit → Option BlockStart
ended_block target tid hit older =
    Option.or_else (block_begun target tid hit) (open_block target tid older)

-- The events of a thread that resumes, of a futex call that is left, if its operation is one that is
-- recorded, and of a request that completes.
abbrev pub block_event : Helpers → ℕ → BlockStart → Event
block_event h tid start =
    new h.ktime_ns (h.ktime_ns - start.ts) 0 start.tgid tid event_sched_block start.comm

abbrev pub futex_event : Helpers → FutexStart → Option Event
futex_event h start =
    Option.map
      (λ event_type.
        new h.ktime_ns (h.ktime_ns - start.ts) start.uaddr start.tgid (current_tid h) event_type
          start.comm)
      (event_type_of start.op)

abbrev pub io_event : Helpers → ℕ → BlockIoStart → Event
io_event h key start =
    new h.ktime_ns (h.ktime_ns - start.ts) key start.tgid start.tid event_block_io start.comm

-- The event of the span that the hit ends.
unfoldable pub event_at : ℕ → Hit → List Hit → Option Event
event_at target (sched_switch h (some evt)) older =
    let tid = evt.next_pid % 2 ^ 32 in
    Option.map (block_event h tid) (ended_block target tid (sched_switch h (some evt)) older)
event_at target (futex_exit h) older =
    Option.bind (open_futex target (current_tid h) older) (futex_event h)
event_at target (block_rq_complete h (some evt)) older =
    let key = pack_block_key evt.dev evt.sector in
    Option.map (io_event h key) (open_io target key older)
event_at target _ older = none

-- A further event, if there is one.
abbrev pub noted : List Event → Option Event → List Event
noted evs none = evs
noted evs (some ev) = evs ++ ev ∷ []

-- The events of a history, in the order of the hits that end their spans.
unfoldable pub events_of : ℕ → List Hit → List Event
events_of target [] = []
events_of target (hit ∷ older) = noted (events_of target older) (event_at target hit older)
