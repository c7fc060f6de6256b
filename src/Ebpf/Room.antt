-- ===== src/Ebpf/Room.antt =====
-- Room in the concrete instances of the interfaces of whyslow-ebpf/src/main.rs to the kernel.
use whyslow.Base.{◌≡◌, true, arith, ltb, length}
use whyslow.Ebpf.Probes.{Probes}
use whyslow.Ebpf.Exact.{HasRoom}
use whyslow.Ebpf.Concrete.{maps}

-- The maps of unbounded lists always have room, the ring buffer has while it holds fewer than 8 events.
pub few-HasRoom : (s : Probes maps) → ltb (length s.events) 8 ≡ true → HasRoom maps s
few-HasRoom s few = record {
  blocks_room = λ tid start e. absurd (ground arith);
  futexes_room = λ tid start e. absurd (ground arith);
  ios_room = λ key start e. absurd (ground arith);
  ring_room = λ ev e. absurd (ground arith);
}
