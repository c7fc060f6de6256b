-- ===== src/Ebpf/Raw.antt =====
-- whyslow-ebpf/src/vmlinux.rs: the raw tracepoint records and the kernel's constants. Signed fields
-- are held as their bit patterns, so that `as u32` of an `i32` is the pattern itself.
use Prim.Native.Nat.{bit_or}
use whyslow.Base.{ℕ, ◌-◌, ◌^◌, List}

pub record TraceEntry : Type 0 where
  pub kind : ℕ
  pub flags : ℕ
  pub preempt_count : ℕ
  pub pid : ℕ

pub record TraceEventRawSchedSwitch : Type 0 where
  pub ent : TraceEntry
  pub prev_comm : List ℕ
  pub prev_pid : ℕ
  pub prev_prio : ℕ
  pub prev_state : ℕ
  pub next_comm : List ℕ
  pub next_pid : ℕ
  pub next_prio : ℕ

-- `args` is the array of six, an argument to a field.
pub record TraceEventRawSysEnter : Type 0 where
  pub ent : TraceEntry
  pub id : ℕ
  pub arg0 : ℕ
  pub arg1 : ℕ
  pub arg2 : ℕ
  pub arg3 : ℕ
  pub arg4 : ℕ
  pub arg5 : ℕ

pub record TraceEventRawSysExit : Type 0 where
  pub ent : TraceEntry
  pub id : ℕ
  pub ret : ℕ

pub record TraceEventRawBlockRq : Type 0 where
  pub ent : TraceEntry
  pub dev : ℕ
  pub sector : ℕ
  pub nr_sector : ℕ
  pub bytes : ℕ
  pub ioprio : ℕ
  pub rwbs : List ℕ
  pub comm : List ℕ
  pub data_loc_cmd : ℕ

pub record TraceEventRawBlockRqCompletion : Type 0 where
  pub ent : TraceEntry
  pub dev : ℕ
  pub sector : ℕ
  pub nr_sector : ℕ
  pub error : ℕ
  pub ioprio : ℕ
  pub rwbs : List ℕ
  pub data_loc_cmd : ℕ

abbrev pub futex_wait : ℕ
futex_wait = 0

abbrev pub futex_wake : ℕ
futex_wake = 1

abbrev pub futex_wait_bitset : ℕ
futex_wait_bitset = 9

abbrev pub futex_wake_bitset : ℕ
futex_wake_bitset = 10

abbrev pub futex_private_flag : ℕ
futex_private_flag = 128

abbrev pub futex_clock_realtime : ℕ
futex_clock_realtime = 256

-- `!` of a `u32`.
abbrev pub futex_cmd_mask : ℕ
futex_cmd_mask = 2 ^ 32 - 1 - bit_or futex_private_flag futex_clock_realtime

abbrev pub task_running : ℕ
task_running = 0
