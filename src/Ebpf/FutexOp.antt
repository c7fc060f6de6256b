-- ===== src/Ebpf/FutexOp.antt =====
-- whyslow-ebpf/src/main.rs: which futex operations give an event.
use Prim.Native.Nat.{bit_and}
use whyslow.Base.{ℕ, ◌+◌, ◌*◌, ◌/◌, ◌%◌, ◌^◌, ◌<◌, ◌≡◌, ◌⊎◌, ◌↔◌, some, none, arith}
use whyslow.Base.Bits.{bit_and-odd, bit_and-even, bit_and-ones}
use whyslow.Event.Schema.{event_futex_wait, event_futex_wake}
use whyslow.Ebpf.Raw.{futex_cmd_mask}
use whyslow.Ebpf.Probes.{event_type_of}

-- The mask clears the two flags, bits 7 and 8, and nothing else.
pub base_op_lem : (op : ℕ) → op < 2 ^ 32 → bit_and op futex_cmd_mask ≡ op % 128 + op / 512 * 512
base_op_lem op h = omega (
  arith,
  bit_and-odd op 0x7fffff3f,
  bit_and-odd (op / 2) 0x3fffff9f,
  bit_and-odd (op / 2 / 2) 0x1fffffcf,
  bit_and-odd (op / 2 / 2 / 2) 0xfffffe7,
  bit_and-odd (op / 2 / 2 / 2 / 2) 0x7fffff3,
  bit_and-odd (op / 2 / 2 / 2 / 2 / 2) 0x3fffff9,
  bit_and-odd (op / 2 / 2 / 2 / 2 / 2 / 2) 0x1fffffc,
  bit_and-even (op / 2 / 2 / 2 / 2 / 2 / 2 / 2) 0xfffffe,
  bit_and-even (op / 2 / 2 / 2 / 2 / 2 / 2 / 2 / 2) 0x7fffff,
  bit_and-ones 23 (op / 2 / 2 / 2 / 2 / 2 / 2 / 2 / 2 / 2),
)

-- A 32-bit futex operation is `command` with the private flag and the clock flag set or not.
abbrev pub IsFlagged : ℕ → ℕ → Type 0
IsFlagged command op = (op % 128 ≡ command) × (op / 512 ≡ 0)

-- The exit of a futex call is recorded as a wait exactly for the commands FUTEX_WAIT and
-- FUTEX_WAIT_BITSET, as a wake exactly for FUTEX_WAKE and FUTEX_WAKE_BITSET, each with any setting
-- of the private and clock flags, and otherwise not at all.
pub event_type_of_lem :
    (op : ℕ)
    → op < 2 ^ 32
    → ((event_type_of op ≡ some event_futex_wait) ↔ (IsFlagged 0 op ⊎ IsFlagged 9 op))
      × ((event_type_of op ≡ some event_futex_wake) ↔ (IsFlagged 1 op ⊎ IsFlagged 10 op))
      × ((event_type_of op ≡ none)
          ↔ (¬ IsFlagged 0 op × ¬ IsFlagged 9 op × ¬ IsFlagged 1 op × ¬ IsFlagged 10 op))
unfolding event_type_of
event_type_of_lem op h =
    let base = base_op_lem op h in
    (
      (λ e. ground arith, λ e. ground arith),
      (λ e. ground arith, λ e. ground arith),
      (
        λ e. (λ p. ground arith, λ p. ground arith, λ p. ground arith, λ p. ground arith),
        λ e. ground arith,
      ),
    )
