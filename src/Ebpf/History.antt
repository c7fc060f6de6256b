-- ===== src/Ebpf/History.antt =====
-- whyslow-ebpf/src/main.rs: what a list of tracepoint hits says about threads, with no map in sight.
-- Histories stand newest first.
use whyslow.Base.{ℕ, ◌-◌, ◌%◌, ◌^◌, ◌≡◌, ◌≢◌, ◌⊎◌, none, some, List, ◌∷◌, arith}
use whyslow.Event.Schema.{Event, new, event_sched_block, event_block_io, pack_block_key}
use whyslow.Ebpf.Raw.{task_running}
use whyslow.Ebpf.Probes.{
  Hit, sched_switch, futex_enter, futex_exit, block_rq_issue, block_rq_complete, BlockStart,
  FutexStart, BlockIoStart, current_tgid, current_tid, current_comm, event_type_of,
}

-- The thread `tid` of the target leaves the CPU blocked, and `start` says when and under what name.
abbrev pub BlocksAt : ℕ → ℕ → BlockStart → Hit → Type 0
BlocksAt target tid start (sched_switch h (some evt)) =
    (tid ≡ evt.prev_pid % 2 ^ 32)
    × (evt.prev_state ≢ task_running)
    × (current_tgid h ≡ target)
    × (start ≡ record { ts = h.ktime_ns; tgid = target; comm = evt.prev_comm })
BlocksAt target tid start _ = ⊥

-- The thread `tid` comes onto a CPU at the time `now`.
abbrev pub ResumesAt : ℕ → ℕ → Hit → Type 0
ResumesAt tid now (sched_switch h (some evt)) = (tid ≡ evt.next_pid % 2 ^ 32) × (now ≡ h.ktime_ns)
ResumesAt tid now _ = ⊥

-- The thread `tid` of the target enters a futex call.
abbrev pub EntersAt : ℕ → ℕ → FutexStart → Hit → Type 0
EntersAt target tid start (futex_enter h (some evt)) =
    (tid ≡ current_tid h)
    × (current_tgid h ≡ target)
    × (start ≡ record {
      ts = h.ktime_ns;
      uaddr = evt.arg0;
      op = evt.arg1 % 2 ^ 32;
      tgid = target;
      comm = current_comm h;
    })
EntersAt target tid start _ = ⊥

-- The thread `tid` returns from a futex call.
abbrev pub LeavesAt : ℕ → ℕ → Hit → Type 0
LeavesAt tid now (futex_exit h) = (tid ≡ current_tid h) × (now ≡ h.ktime_ns)
LeavesAt tid now _ = ⊥

-- A thread of the target issues the request with the packed key `key`.
abbrev pub IssuesAt : ℕ → ℕ → BlockIoStart → Hit → Type 0
IssuesAt target key start (block_rq_issue h (some evt)) =
    (key ≡ pack_block_key evt.dev evt.sector)
    × (current_tgid h ≡ target)
    × (start
        ≡ record { ts = h.ktime_ns; tgid = target; tid = current_tid h; comm = current_comm h })
IssuesAt target key start _ = ⊥

-- The request with the packed key `key` completes.
abbrev pub CompletesAt : ℕ → ℕ → Hit → Type 0
CompletesAt key now (block_rq_complete h (some evt)) =
    (key ≡ pack_block_key evt.dev evt.sector) × (now ≡ h.ktime_ns)
CompletesAt key now _ = ⊥

-- `start` was set down for `key` by a hit of the history, and no hit since has ended its span.
pub data Pending {A : Type 0} (Starts : ℕ → A → Hit → Type 0) (Ends : ℕ → ℕ → Hit → Type 0)
    (key : ℕ) (start : A) : List Hit → Type 0 where
  begun :
      {hit : Hit} {older : List Hit}
      → Starts key start hit
      → Pending Starts Ends key start (hit ∷ older)
  held :
      {hit : Hit} {older : List Hit}
      → ((now : ℕ) → ¬ Ends key now hit)
      → Pending Starts Ends key start older
      → Pending Starts Ends key start (hit ∷ older)

-- The event ends a span that a hit of the history began and the newest hit, or an earlier one,
-- ended: it carries the time of the end, the time between the two, and the target as its process.
pub data Emitted (target : ℕ) (ev : Event) : List Hit → Type 0 where
  of_switch :
      {hit : Hit} {older : List Hit} (tid now : ℕ) (start : BlockStart)
      → Pending (BlocksAt target) ResumesAt tid start older ⊎ BlocksAt target tid start hit
      → ResumesAt tid now hit
      → ev ≡ new now (now - start.ts) 0 target tid event_sched_block start.comm
      → Emitted target ev (hit ∷ older)
  of_futex :
      {hit : Hit} {older : List Hit} (tid now : ℕ) (start : FutexStart) (event_type : ℕ)
      → Pending (EntersAt target) LeavesAt tid start older
      → LeavesAt tid now hit
      → event_type_of start.op ≡ some event_type
      → ev ≡ new now (now - start.ts) start.uaddr target tid event_type start.comm
      → Emitted target ev (hit ∷ older)
  of_io :
      {hit : Hit} {older : List Hit} (key now : ℕ) (start : BlockIoStart)
      → Pending (IssuesAt target) CompletesAt key start older
      → CompletesAt key now hit
      → ev ≡ new now (now - start.ts) key target start.tid event_block_io start.comm
      → Emitted target ev (hit ∷ older)
  earlier :
      {hit : Hit} {older : List Hit} → Emitted target ev older → Emitted target ev (hit ∷ older)

pub Pending-holds :
    {A : Type 0} {Starts : ℕ → A → Hit → Type 0} {Ends : ℕ → ℕ → Hit → Type 0} {key : ℕ} {start : A}
    {hits : List Hit} (P : A → Type 0)
    → ((hit : Hit) → Starts key start hit → P start)
    → Pending Starts Ends key start hits
    → P start
Pending-holds P each (begun {hit = hit} now) = each hit now
Pending-holds P each (held quiet old) = Pending-holds P each old

pub BlocksAt-tgid :
    (target tid : ℕ) (start : BlockStart) (hit : Hit)
    → BlocksAt target tid start hit
    → start.tgid ≡ target
BlocksAt-tgid target tid start (sched_switch h (some evt)) p = ground (arith, p.3)
BlocksAt-tgid target tid start (sched_switch h none) p = absurd p
BlocksAt-tgid target tid start (futex_enter h raw) p = absurd p
BlocksAt-tgid target tid start (futex_exit h) p = absurd p
BlocksAt-tgid target tid start (block_rq_issue h raw) p = absurd p
BlocksAt-tgid target tid start (block_rq_complete h raw) p = absurd p

pub EntersAt-tgid :
    (target tid : ℕ) (start : FutexStart) (hit : Hit)
    → EntersAt target tid start hit
    → start.tgid ≡ target
EntersAt-tgid target tid start (futex_enter h (some evt)) p = ground (arith, p.2)
EntersAt-tgid target tid start (futex_enter h none) p = absurd p
EntersAt-tgid target tid start (sched_switch h raw) p = absurd p
EntersAt-tgid target tid start (futex_exit h) p = absurd p
EntersAt-tgid target tid start (block_rq_issue h raw) p = absurd p
EntersAt-tgid target tid start (block_rq_complete h raw) p = absurd p

pub IssuesAt-tgid :
    (target key : ℕ) (start : BlockIoStart) (hit : Hit)
    → IssuesAt target key start hit
    → start.tgid ≡ target
IssuesAt-tgid target key start (block_rq_issue h (some evt)) p = ground (arith, p.2)
IssuesAt-tgid target key start (block_rq_issue h none) p = absurd p
IssuesAt-tgid target key start (sched_switch h raw) p = absurd p
IssuesAt-tgid target key start (futex_enter h raw) p = absurd p
IssuesAt-tgid target key start (futex_exit h) p = absurd p
IssuesAt-tgid target key start (block_rq_complete h raw) p = absurd p
