-- ===== src/Ebpf/Refines.antt =====
-- whyslow-ebpf/src/main.rs: where the kernel refuses nothing, the programs record exactly what the
-- reference says.
mod State
mod Switch
mod Futex
mod Io
pub use State.{IsExact}
use whyslow.Base.{ℕ, ◌≡◌, false, List, [], ◌∷◌, ◌==◌}
use whyslow.Ebpf.Probes.{
  Maps, Probes, Hit, sched_switch, futex_enter, futex_exit, block_rq_issue, block_rq_complete,
  probe, after,
}
use whyslow.Ebpf.Exact.{HasRoom}
use Switch.{try_sched_switch-IsExact}
use Futex.{try_futex_enter-IsExact, try_futex_exit-IsExact}
use Io.{try_block_rq_issue-IsExact, try_block_rq_complete-IsExact}

-- At each hit there is room for one more.
abbrev pub HasRoomThroughout : (k : Maps) → Probes k → List Hit → Type 0
HasRoomThroughout k s [] = Unit
HasRoomThroughout k s (hit ∷ older) = HasRoom k (after k s older) × HasRoomThroughout k s older

module _ (k : Maps) (target : ℕ) where
  probe-IsExact :
      (hits : List Hit) (s : Probes k) (hit : Hit)
      → (target == 0) ≡ false
      → IsExact k target hits s
      → HasRoom k s
      → IsExact k target (hit ∷ hits) (probe k hit s).0
  unfolding probe
  probe-IsExact hits s (sched_switch h raw) set v room =
      try_sched_switch-IsExact k target hits s h set v room raw
  probe-IsExact hits s (futex_enter h raw) set v room =
      try_futex_enter-IsExact k target hits s h set v room raw
  probe-IsExact hits s (futex_exit h) set v room =
      try_futex_exit-IsExact k target hits s h set v room
  probe-IsExact hits s (block_rq_issue h raw) set v room =
      try_block_rq_issue-IsExact k target hits s h set v room raw
  probe-IsExact hits s (block_rq_complete h raw) set v room =
      try_block_rq_complete-IsExact k target hits s h set v room raw

  pub after-IsExact :
      (s : Probes k) (hits : List Hit)
      → (target == 0) ≡ false
      → IsExact k target [] s
      → HasRoomThroughout k s hits
      → IsExact k target hits (after k s hits)
  unfolding after
  after-IsExact s [] set v room = v
  after-IsExact s (hit ∷ older) set v room =
      probe-IsExact older (after k s older) hit set (after-IsExact s older set v room.1) room.0
