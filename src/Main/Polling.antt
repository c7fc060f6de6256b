-- ===== src/Main/Polling.antt =====
-- whyslow-cli/src/main.rs: what the drain of `run` finds until the child has exited.
use whyslow.Base.{ℕ, ◌≡◌, ◌≢◌, refl, ap, true, false, some, List, [], ◌∷◌, ◌++◌, map, arith, All}
use whyslow.Base.Result.{ok, found}
use whyslow.Trace.Defs.{from_event}
use whyslow.Bpf.Drain.{
  Item, Sent, bytes, IsWhole, all_items, drain_ring_buffer, drain_ring_buffer-events,
}
use whyslow.Child.{has_exited}
use whyslow.Main.Effects.{Polled}
use whyslow.Main.Commands.{round_of}

map-round_of_append :
    (pid : ℕ) (xs ys : List Polled)
    → map (round_of pid) (xs ++ ys) ≡ map (round_of pid) xs ++ map (round_of pid) ys
map-round_of_append pid [] ys = refl
map-round_of_append pid (x ∷ xs) ys = ap (◌∷◌ (round_of pid x)) (map-round_of_append pid xs ys)

round_of-quiet :
    (pid : ℕ) (polls : List Polled)
    → All (λ p. p.ret ≢ pid) polls
    → All (λ q. q.stop ≡ false) (map (round_of pid) polls)
unfolding has_exited
round_of-quiet pid [] quiet = tt
round_of-quiet pid (p ∷ polls) quiet = (ground arith, round_of-quiet pid polls quiet.1)

round_of-stop : (pid : ℕ) (p : Polled) → p.ret ≡ pid → (round_of pid p).stop ≡ true
unfolding has_exited
round_of-stop pid p exits = ground arith

-- The items that the polls find, in order.
abbrev pub found_items : List Polled → List Item
found_items [] = []
found_items (p ∷ polls) = p.items ++ found_items polls

all_items-round_of :
    (pid : ℕ) (polls : List Polled) → all_items (map (round_of pid) polls) ≡ found_items polls
all_items-round_of pid [] = refl
all_items-round_of pid (p ∷ polls) = ap (λ x. p.items ++ x) (all_items-round_of pid polls)

-- The drain of `run` ends with the events that were sent before the child was seen to have exited.
pub drained :
    (pid : ℕ) (polls later : List Polled) (p : Polled) (last : List Item) (sent : List Sent)
    → All (λ p. p.ret ≢ pid) polls
    → p.ret ≡ pid
    → All IsWhole sent
    → found_items polls ++ (p.items ++ last) ≡ map bytes sent
    → drain_ring_buffer found (map (round_of pid) (polls ++ p ∷ later)) last
      ≡ some (ok (map (λ x. from_event x.0) sent))
drained pid polls later p last sent quiet exits whole same =
    rw (map-round_of_append pid polls (p ∷ later)) (
      drain_ring_buffer-events (map (round_of pid) polls) (map (round_of pid) later)
        (round_of pid p) last sent (round_of-quiet pid polls quiet) (round_of-stop pid p exits)
        whole (rw (all_items-round_of pid polls) same))
