-- ===== src/Event/Schema.antt =====
-- whyslow-common/src/lib.rs: the event record and the packed block key. A `u64`, `u32` or `u8` is a
-- native number below its bound; `InRange` states the bounds of a whole record.
use Prim.Native.Nat.{bit_and, bit_or}
use whyslow.Base.{ℕ, ◌*◌, ◌/◌, ◌%◌, ◌^◌, ◌<◌, ◌≡◌, List, length, All, replicate}

abbrev pub event_sched_block : ℕ
event_sched_block = 0

abbrev pub event_futex_wait : ℕ
event_futex_wait = 1

abbrev pub event_futex_wake : ℕ
event_futex_wake = 2

abbrev pub event_block_io : ℕ
event_block_io = 3

abbrev pub task_comm_len : ℕ
task_comm_len = 16

-- `pad` is the source's `_pad`, three bytes that make the gap before `comm` explicit.
pub record Event : Type 0 where
  pub timestamp_ns : ℕ
  pub duration_ns : ℕ
  pub key : ℕ
  pub pid : ℕ
  pub tid : ℕ
  pub event_type : ℕ
  pub pad : List ℕ
  pub comm : List ℕ

-- `Event::new`.
abbrev pub new : ℕ → ℕ → ℕ → ℕ → ℕ → ℕ → List ℕ → Event
new timestamp_ns duration_ns key pid tid event_type comm = record {
  timestamp_ns = timestamp_ns;
  duration_ns = duration_ns;
  key = key;
  pid = pid;
  tid = tid;
  event_type = event_type;
  pad = replicate 3 0;
  comm = comm;
}

abbrev pub IsByte : ℕ → Type 0
IsByte b = b < 256

-- The ranges of the fields' Rust types.
pub record InRange (ev : Event) : Type 0 where
  pub timestamp_ns_fits : ev.timestamp_ns < 2 ^ 64
  pub duration_ns_fits : ev.duration_ns < 2 ^ 64
  pub key_fits : ev.key < 2 ^ 64
  pub pid_fits : ev.pid < 2 ^ 32
  pub tid_fits : ev.tid < 2 ^ 32
  pub event_type_fits : ev.event_type < 2 ^ 8
  pub pad_length : length ev.pad ≡ 3
  pub pad_bytes : All IsByte ev.pad
  pub comm_length : length ev.comm ≡ task_comm_len
  pub comm_bytes : All IsByte ev.comm

-- `(dev as u64) << 32` drops what leaves the 64 bits.
unfoldable pub pack_block_key : ℕ → ℕ → ℕ
pack_block_key dev sector = bit_or (dev * 2 ^ 32 % 2 ^ 64) (bit_and sector 0xffff_ffff)

unfoldable pub unpack_block_key : ℕ → ℕ × ℕ
unpack_block_key key = (key / 2 ^ 32 % 2 ^ 32, bit_and key 0xffff_ffff % 2 ^ 32)
