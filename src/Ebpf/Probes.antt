-- ===== src/Ebpf/Probes.antt =====
-- whyslow-ebpf/src/main.rs: the five programs over their maps and the ring buffer. A run of a
-- program is one step: it is not interleaved with another run on the same entry.
use Prim.Native.Nat.{bit_and}
use whyslow.Base.{
  ℕ, ◌-◌, ◌/◌, ◌%◌, ◌^◌, Bool, ◌||◌, not, Option, none, some, List, [], ◌∷◌, ◌==◌, if◌then◌else◌,
  replicate,
}
use whyslow.Base.Result.{Result, ok, err}
use whyslow.Event.Schema.{
  Event, new, event_sched_block, event_futex_wait, event_futex_wake, event_block_io, pack_block_key,
}
use whyslow.Ebpf.Raw.{
  TraceEventRawSchedSwitch, TraceEventRawSysEnter, TraceEventRawBlockRq,
  TraceEventRawBlockRqCompletion, futex_wait, futex_wake, futex_wait_bitset, futex_wake_bitset,
  futex_cmd_mask, task_running,
}
use whyslow.Ebpf.Kernel.{BpfMap, RingBuf, Helpers}

pub record BlockStart : Type 0 where
  pub ts : ℕ
  pub tgid : ℕ
  pub comm : List ℕ

pub record FutexStart : Type 0 where
  pub ts : ℕ
  pub uaddr : ℕ
  pub op : ℕ
  pub tgid : ℕ
  pub comm : List ℕ

pub record BlockIoStart : Type 0 where
  pub ts : ℕ
  pub tgid : ℕ
  pub tid : ℕ
  pub comm : List ℕ

unfoldable pub current_tgid : Helpers → ℕ
current_tgid h = h.pid_tgid / 2 ^ 32 % 2 ^ 32

unfoldable pub current_tid : Helpers → ℕ
current_tid h = bit_and h.pid_tgid 0xffff_ffff % 2 ^ 32

-- `bpf_get_current_comm().unwrap_or([0; 16])`.
unfoldable pub current_comm : Helpers → List ℕ
current_comm h = elim h.comm [ none ↦ replicate 16 0 | some c ↦ c ]

-- The type of the event for a futex operation, if it has one.
unfoldable pub event_type_of : ℕ → Option ℕ
event_type_of op =
    let base_op = bit_and op futex_cmd_mask in
    if base_op == futex_wait || base_op == futex_wait_bitset
    then some event_futex_wait
    else if base_op == futex_wake || base_op == futex_wake_bitset
    then some event_futex_wake
    else none

-- Both arms of the wrappers return the number.
unfoldable pub exit_code : Result ℕ ℕ → ℕ
exit_code (ok ret) = ret
exit_code (err ret) = ret

-- The maps of the programs and their ring buffer.
pub record Maps : Type 1 where
  pub blocks : BpfMap BlockStart
  pub futexes : BpfMap FutexStart
  pub ios : BpfMap BlockIoStart
  pub ring : RingBuf

-- The hit of a tracepoint, with what the helpers answer and what the read of the context gives.
pub data Hit : Type 0 where
  sched_switch : Helpers → Option TraceEventRawSchedSwitch → Hit
  futex_enter : Helpers → Option TraceEventRawSysEnter → Hit
  futex_exit : Helpers → Hit
  block_rq_issue : Helpers → Option TraceEventRawBlockRq → Hit
  block_rq_complete : Helpers → Option TraceEventRawBlockRqCompletion → Hit

module _ (k : Maps) where
  open k use {blocks, futexes, ios, ring}

  -- `target` is the slot of `TARGET_TGID`.
  pub record Probes : Type 0 where
    pub target : Option ℕ
    pub block_start : blocks.Map
    pub futex_start : futexes.Map
    pub blockio_start : ios.Map
    pub events : ring.Ring

  unfoldable pub target_tgid : Probes → ℕ
  target_tgid s = elim s.target [ none ↦ 0 | some t ↦ t ]

  -- An event that finds no room is dropped.
  unfoldable pub emit : Event → Probes → Probes
  emit ev s = elim (ring.submit ev s.events) [ none ↦ s | some r ↦ record s { events = r } ]

  -- Inserts whose result is ignored.
  unfoldable pub put_block : ℕ → BlockStart → Probes → Probes
  put_block tid start s = elim (blocks.insert tid start s.block_start) [
    | none ↦ s
    | some m ↦ record s { block_start = m }
  ]

  unfoldable pub put_futex : ℕ → FutexStart → Probes → Probes
  put_futex tid start s = elim (futexes.insert tid start s.futex_start) [
    | none ↦ s
    | some m ↦ record s { futex_start = m }
  ]

  unfoldable pub put_io : ℕ → BlockIoStart → Probes → Probes
  put_io key start s = elim (ios.insert key start s.blockio_start) [
    | none ↦ s
    | some m ↦ record s { blockio_start = m }
  ]

  -- The first half of `try_sched_switch`: the outgoing thread.
  unfoldable pub switch_out : Helpers → TraceEventRawSchedSwitch → ℕ → Probes → Probes
  switch_out h evt target s =
      if evt.prev_state == task_running
      then s
      else (let prev_tgid = current_tgid h in
          if prev_tgid == target
          then put_block (evt.prev_pid % 2 ^ 32)
              (record { ts = h.ktime_ns; tgid = prev_tgid; comm = evt.prev_comm }) s
          else s)

  -- The second half: the incoming thread.
  unfoldable pub switch_in : Helpers → TraceEventRawSchedSwitch → Probes → Probes
  switch_in h evt s =
      let next_tid = evt.next_pid % 2 ^ 32 in
      elim (blocks.get next_tid s.block_start) [
        | none ↦ s
        | some start ↦
            let duration = h.ktime_ns - start.ts in
            emit (new h.ktime_ns duration 0 start.tgid next_tid event_sched_block start.comm)
              (record s { block_start = blocks.remove next_tid s.block_start })
      ]

  unfoldable pub try_sched_switch :
      Helpers → Option TraceEventRawSchedSwitch → Probes → Probes × Result ℕ ℕ
  try_sched_switch h none s = if target_tgid s == 0 then (s, ok 0) else (s, err 1)
  try_sched_switch h (some evt) s =
      let target = target_tgid s in
      if target == 0 then (s, ok 0) else (switch_in h evt (switch_out h evt target s), ok 0)

  -- The target is not set, or the running process is another.
  abbrev pub not_traced : Helpers → Probes → Bool
  not_traced h s = target_tgid s == 0 || not (current_tgid h == target_tgid s)

  unfoldable pub try_futex_enter :
      Helpers → Option TraceEventRawSysEnter → Probes → Probes × Result ℕ ℕ
  try_futex_enter h none s = if not_traced h s then (s, ok 0) else (s, err 1)
  try_futex_enter h (some evt) s = if not_traced h s then (s, ok 0) else (
    put_futex (current_tid h)
        (record {
          ts = h.ktime_ns;
          uaddr = evt.arg0;
          op = evt.arg1 % 2 ^ 32;
          tgid = current_tgid h;
          comm = current_comm h;
        })
        s,
    ok 0,
  )

  unfoldable pub try_futex_exit : Helpers → Probes → Probes × Result ℕ ℕ
  try_futex_exit h s =
      let tid = current_tid h in
      elim (futexes.get tid s.futex_start) [
        | none ↦ (s, ok 0)
        | some start ↦
            let s' : Probes = record s { futex_start = futexes.remove tid s.futex_start } in
            let duration = h.ktime_ns - start.ts in
            elim (event_type_of start.op) [
              | none ↦ (s', ok 0)
              | some event_type ↦ (
                emit (new h.ktime_ns duration start.uaddr start.tgid tid event_type start.comm) s',
                ok 0,
              )
            ]
      ]

  unfoldable pub try_block_rq_issue :
      Helpers → Option TraceEventRawBlockRq → Probes → Probes × Result ℕ ℕ
  try_block_rq_issue h none s = if not_traced h s then (s, ok 0) else (s, err 1)
  try_block_rq_issue h (some evt) s = if not_traced h s then (s, ok 0) else (
    put_io (pack_block_key evt.dev evt.sector)
        (record {
          ts = h.ktime_ns;
          tgid = current_tgid h;
          tid = current_tid h;
          comm = current_comm h;
        })
        s,
    ok 0,
  )

  unfoldable pub try_block_rq_complete :
      Helpers → Option TraceEventRawBlockRqCompletion → Probes → Probes × Result ℕ ℕ
  try_block_rq_complete h none s = (s, err 1)
  try_block_rq_complete h (some evt) s =
      let key = pack_block_key evt.dev evt.sector in
      elim (ios.get key s.blockio_start) [
        | none ↦ (s, ok 0)
        | some start ↦
            let duration = h.ktime_ns - start.ts in
            (
              emit (new h.ktime_ns duration key start.tgid start.tid event_block_io start.comm)
                  (record s { blockio_start = ios.remove key s.blockio_start }),
              ok 0,
            )
      ]

  -- The program of a tracepoint: the maps afterwards, and its result.
  unfoldable pub probe : Hit → Probes → Probes × Result ℕ ℕ
  probe (sched_switch h raw) s = try_sched_switch h raw s
  probe (futex_enter h raw) s = try_futex_enter h raw s
  probe (futex_exit h) s = try_futex_exit h s
  probe (block_rq_issue h raw) s = try_block_rq_issue h raw s
  probe (block_rq_complete h raw) s = try_block_rq_complete h raw s

  -- After the hits, newest first.
  unfoldable pub after : Probes → List Hit → Probes
  after s [] = s
  after s (hit ∷ older) = (probe hit (after s older)).0

  -- Just loaded: the slot of an array map exists, and holds 0.
  abbrev pub loaded : Probes
  loaded = record {
    target = some 0;
    block_start = blocks.empty;
    futex_start = futexes.empty;
    blockio_start = ios.empty;
    events = ring.fresh;
  }
