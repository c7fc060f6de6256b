-- ===== src/Ebpf/Kernel.antt =====
-- What whyslow-ebpf/src/main.rs takes from aya and the kernel: hash maps, the ring buffer, and what
-- the helpers and the read of the context answer in one run of a program.
use whyslow.Base.{ℕ, ◌≡◌, Option, none, some, List, [], ◌∷◌, ◌++◌, ◌==◌, if◌then◌else◌}
use whyslow.Event.Schema.{Event}

-- A BPF hash map with integer keys. `insert` (with flag 0, create or update) answers `none` if the
-- kernel refuses it, as it does when the map is full; `remove` of a missing key changes nothing.
pub record BpfMap (V : Type 0) : Type 1 where
  pub Map : Type 0
  pub empty : Map
  pub get : ℕ → Map → Option V
  pub insert : ℕ → V → Map → Option Map
  pub remove : ℕ → Map → Map
  pub get-empty : (k : ℕ) → get k empty ≡ none
  pub get-insert :
      (j k : ℕ) (v : V) (m m' : Map)
      → insert k v m ≡ some m'
      → get j m' ≡ (if j == k then some v else get j m)
  pub get-remove : (j k : ℕ) (m : Map) → get j (remove k m) ≡ (if j == k then none else get j m)

-- The ring buffer: the events submitted and not yet taken out. `submit` is `reserve`, `write` and
-- `submit` in one, and answers `none` if there is no room.
pub record RingBuf : Type 1 where
  pub Ring : Type 0
  pub fresh : Ring
  pub queued : Ring → List Event
  pub submit : Event → Ring → Option Ring
  pub queued-fresh : queued fresh ≡ []
  pub queued-submit :
      (ev : Event) (r r' : Ring) → submit ev r ≡ some r' → queued r' ≡ queued r ++ ev ∷ []

-- The helpers in one run of a program: `bpf_get_current_pid_tgid`, `bpf_ktime_get_ns` and
-- `bpf_get_current_comm`.
pub record Helpers : Type 0 where
  pub pid_tgid : ℕ
  pub ktime_ns : ℕ
  pub comm : Option (List ℕ)
