-- ===== src/Ebpf/Ranges.antt =====
-- whyslow-ebpf/src/main.rs: the fields of the events are in the ranges of their types.
use whyslow.Base.{
  ℕ, ◌-◌, ◌^◌, ◌<◌, ◌≡◌, refl, sym, subst, inl, inr, Option, none, some, List, arith, All, length,
  Elem-All, replicate,
}
use whyslow.Event.Schema.{Event, new, InRange, IsByte, event_sched_block, event_block_io}
use whyslow.Event.BlockKey.{pack_block_key-lt}
use whyslow.Ebpf.Kernel.{Helpers}
use whyslow.Ebpf.Probes.{
  Hit, sched_switch, futex_enter, futex_exit, block_rq_issue, block_rq_complete, BlockStart,
  FutexStart, BlockIoStart, current_tid, current_comm, event_type_of,
}
use whyslow.Ebpf.History.{
  BlocksAt, ResumesAt, EntersAt, LeavesAt, IssuesAt, CompletesAt, Emitted, of_switch, of_futex,
  of_io, earlier,
}
use whyslow.Ebpf.Sound.{Pending-hit}

abbrev pub IsComm : List ℕ → Type 0
IsComm comm = (length comm ≡ 16) × All IsByte comm

-- What the helper answers for the name of the thread.
abbrev pub IsCommAnswer : Option (List ℕ) → Type 0
IsCommAnswer none = Unit
IsCommAnswer (some comm) = IsComm comm

-- The values that a hit brings are in the ranges of their types.
abbrev pub HitFits : Hit → Type 0
HitFits (sched_switch h (some evt)) = (h.ktime_ns < 2 ^ 64) × IsComm evt.prev_comm
HitFits (futex_enter h (some evt)) =
    (h.ktime_ns < 2 ^ 64) × ((evt.arg0 < 2 ^ 64) × IsCommAnswer h.comm)
HitFits (futex_exit h) = h.ktime_ns < 2 ^ 64
HitFits (block_rq_issue h (some evt)) = (h.ktime_ns < 2 ^ 64) × IsCommAnswer h.comm
HitFits (block_rq_complete h (some evt)) = (h.ktime_ns < 2 ^ 64) × (evt.dev < 2 ^ 32)
HitFits _ = Unit

new-InRange :
    (now ts key pid tid event_type : ℕ) (comm : List ℕ)
    → now < 2 ^ 64
    → key < 2 ^ 64
    → pid < 2 ^ 32
    → tid < 2 ^ 32
    → event_type < 2 ^ 8
    → IsComm comm
    → InRange (new now (now - ts) key pid tid event_type comm)
new-InRange now ts key pid tid event_type comm n k p t e c = record {
  timestamp_ns_fits = n;
  duration_ns_fits = omega arith;
  key_fits = k;
  pid_fits = p;
  tid_fits = t;
  event_type_fits = e;
  pad_length = refl;
  pad_bytes = search arith;
  comm_length = c.0;
  comm_bytes = c.1;
}

or_zeros-IsComm :
    (answer : Option (List ℕ))
    → IsCommAnswer answer
    → IsComm (elim answer [ none ↦ replicate 16 0 | some c ↦ c ])
or_zeros-IsComm none fits = (refl, search arith)
or_zeros-IsComm (some comm) fits = fits

current_comm-IsComm : (h : Helpers) → IsCommAnswer h.comm → IsComm (current_comm h)
unfolding current_comm
current_comm-IsComm h fits = or_zeros-IsComm h.comm fits

current_tid-lt : (h : Helpers) → current_tid h < 2 ^ 32
unfolding current_tid
current_tid-lt h = omega arith

event_type_of_fits : (op t : ℕ) → event_type_of op ≡ some t → t < 2 ^ 8
unfolding event_type_of
event_type_of_fits op t e = ground arith

BlocksAt-comm :
    (target tid : ℕ) (start : BlockStart) (hit : Hit)
    → BlocksAt target tid start hit
    → HitFits hit
    → IsComm start.comm
BlocksAt-comm target tid start (sched_switch h (some evt)) p fits =
    subst (λ (x : BlockStart). IsComm x.comm) (sym p.3) fits.1
BlocksAt-comm target tid start (sched_switch h none) p fits = absurd p
BlocksAt-comm target tid start (futex_enter h raw) p fits = absurd p
BlocksAt-comm target tid start (futex_exit h) p fits = absurd p
BlocksAt-comm target tid start (block_rq_issue h raw) p fits = absurd p
BlocksAt-comm target tid start (block_rq_complete h raw) p fits = absurd p

ResumesAt-fits :
    (tid now : ℕ) (hit : Hit)
    → ResumesAt tid now hit
    → HitFits hit
    → (now < 2 ^ 64) × (tid < 2 ^ 32)
ResumesAt-fits tid now (sched_switch h none) p fits = absurd p
ResumesAt-fits tid now (sched_switch h (some evt)) p fits =
    (omega (arith, p.1, fits.0), omega (arith, p.0))
ResumesAt-fits tid now (futex_enter h raw) p fits = absurd p
ResumesAt-fits tid now (futex_exit h) p fits = absurd p
ResumesAt-fits tid now (block_rq_issue h raw) p fits = absurd p
ResumesAt-fits tid now (block_rq_complete h raw) p fits = absurd p

-- What a futex call sets down.
abbrev FutexFits : FutexStart → Type 0
FutexFits start = (start.uaddr < 2 ^ 64) × IsComm start.comm

EntersAt-fits :
    (target tid : ℕ) (start : FutexStart) (hit : Hit)
    → EntersAt target tid start hit
    → HitFits hit
    → FutexFits start
EntersAt-fits target tid start (sched_switch h raw) p fits = absurd p
EntersAt-fits target tid start (futex_enter h none) p fits = absurd p
EntersAt-fits target tid start (futex_enter h (some evt)) p fits =
    subst FutexFits (sym p.2) (fits.1.0, current_comm-IsComm h fits.1.1)
EntersAt-fits target tid start (futex_exit h) p fits = absurd p
EntersAt-fits target tid start (block_rq_issue h raw) p fits = absurd p
EntersAt-fits target tid start (block_rq_complete h raw) p fits = absurd p

LeavesAt-fits :
    (tid now : ℕ) (hit : Hit) → LeavesAt tid now hit → HitFits hit → (now < 2 ^ 64) × (tid < 2 ^ 32)
LeavesAt-fits tid now (sched_switch h raw) p fits = absurd p
LeavesAt-fits tid now (futex_enter h raw) p fits = absurd p
LeavesAt-fits tid now (futex_exit h) p fits =
    let low = current_tid-lt h in (omega (arith, p.1, fits), omega (arith, p.0, low))
LeavesAt-fits tid now (block_rq_issue h raw) p fits = absurd p
LeavesAt-fits tid now (block_rq_complete h raw) p fits = absurd p

-- What the issue of a request sets down.
abbrev IoFits : BlockIoStart → Type 0
IoFits start = (start.tid < 2 ^ 32) × IsComm start.comm

IssuesAt-fits :
    (target key : ℕ) (start : BlockIoStart) (hit : Hit)
    → IssuesAt target key start hit
    → HitFits hit
    → IoFits start
IssuesAt-fits target key start (sched_switch h raw) p fits = absurd p
IssuesAt-fits target key start (futex_enter h raw) p fits = absurd p
IssuesAt-fits target key start (futex_exit h) p fits = absurd p
IssuesAt-fits target key start (block_rq_issue h none) p fits = absurd p
IssuesAt-fits target key start (block_rq_issue h (some evt)) p fits =
    subst IoFits (sym p.2) (current_tid-lt h, current_comm-IsComm h fits.1)
IssuesAt-fits target key start (block_rq_complete h raw) p fits = absurd p

CompletesAt-fits :
    (key now : ℕ) (hit : Hit)
    → CompletesAt key now hit
    → HitFits hit
    → (now < 2 ^ 64) × (key < 2 ^ 64)
CompletesAt-fits key now (sched_switch h raw) p fits = absurd p
CompletesAt-fits key now (futex_enter h raw) p fits = absurd p
CompletesAt-fits key now (futex_exit h) p fits = absurd p
CompletesAt-fits key now (block_rq_issue h raw) p fits = absurd p
CompletesAt-fits key now (block_rq_complete h none) p fits = absurd p
CompletesAt-fits key now (block_rq_complete h (some evt)) p fits =
    let low = pack_block_key-lt evt.dev evt.sector fits.1 in
    (omega (arith, p.1, fits.0), omega (arith, p.0, low))

-- An event emitted after hits in the ranges of their types is in the ranges of its.
pub Emitted-InRange :
    {target : ℕ} {ev : Event} {hits : List Hit}
    → target < 2 ^ 32
    → Emitted target ev hits
    → All HitFits hits
    → InRange ev
Emitted-InRange {target = target} low
      (of_switch {hit = hit} {older = older} tid now start (inl old) ends e) fits =
    let (first, m, b) = Pending-hit old in
    let comm = BlocksAt-comm target tid start first b (Elem-All HitFits older fits.1 m) in
    let (n, t) = ResumesAt-fits tid now hit ends fits.0 in
    subst InRange (sym e) (
      new-InRange now start.ts 0 target tid event_sched_block start.comm n (omega arith) low t
        (omega arith) comm)
Emitted-InRange {target = target} low (of_switch {hit = hit} tid now start (inr b) ends e) fits =
    let comm = BlocksAt-comm target tid start hit b fits.0 in
    let (n, t) = ResumesAt-fits tid now hit ends fits.0 in
    subst InRange (sym e) (
      new-InRange now start.ts 0 target tid event_sched_block start.comm n (omega arith) low t
        (omega arith) comm)
Emitted-InRange {target = target} low
      (of_futex {hit = hit} {older = older} tid now start event_type old ends typed e) fits =
    let (first, m, b) = Pending-hit old in
    let (addr, comm) = EntersAt-fits target tid start first b (Elem-All HitFits older fits.1 m) in
    let (n, t) = LeavesAt-fits tid now hit ends fits.0 in
    subst InRange (sym e) (
      new-InRange now start.ts start.uaddr target tid event_type start.comm n addr low t
        (event_type_of_fits start.op event_type typed) comm)
Emitted-InRange {target = target} low (of_io {hit = hit} {older = older} key now start old ends e)
      fits =
    let (first, m, b) = Pending-hit old in
    let (tid, comm) = IssuesAt-fits target key start first b (Elem-All HitFits older fits.1 m) in
    let (n, k) = CompletesAt-fits key now hit ends fits.0 in
    subst InRange (sym e) (
      new-InRange now start.ts key target start.tid event_block_io start.comm n k low tid
        (omega arith) comm)
Emitted-InRange low (earlier old) fits = Emitted-InRange low old fits.1
