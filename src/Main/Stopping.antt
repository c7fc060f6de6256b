-- ===== src/Main/Stopping.antt =====
-- whyslow-cli/src/main.rs: when `attach` stops, and what its drain finds until then.
use whyslow.Base.{
  ℕ, zero, suc, ◌≤◌, ◌<◌, ◌≡◌, ◌+◌, ◌*◌, ◌/◌, ◌^◌, sym, refl, ◌∙◌, ap, ◌⊎◌, inl, inr, true, false,
  Bool-cases, Option, none, some, List, [], ◌∷◌, ◌++◌, map, arith, All, leb, leb→le,
}
use whyslow.Base.Result.{ok, found}
use whyslow.Trace.Defs.{from_event}
use whyslow.Bpf.Drain.{
  Item, Sent, bytes, IsWhole, all_items, drain_ring_buffer, drain_ring_buffer-events,
}
use whyslow.Main.Effects.{Watched}
use whyslow.Main.Commands.{stop_requested, should_stop, watch_of, deadline_of}

-- The deadline is set and has passed.
abbrev pub HasPassed : Option ℕ → ℕ → Type 0
HasPassed none now = ⊥
HasPassed (some at) now = at ≤ now

-- The deadline is so many seconds after `started`, where the clock can have that time.
abbrev pub IsDeadline : ℕ → Option ℕ → Option ℕ → Type 0
IsDeadline started none deadline = deadline ≡ none
IsDeadline started (some secs) deadline =
    (started / 1_000_000_000 + secs < 2 ^ 63) × (deadline ≡ some (started + secs * 1_000_000_000))

pub deadline_of-IsDeadline :
    (started : ℕ) (duration_secs deadline : Option ℕ)
    → IsDeadline started duration_secs deadline
    → deadline_of started duration_secs ≡ some deadline
deadline_of-IsDeadline started none deadline e = ap some (sym e)
deadline_of-IsDeadline started (some secs) deadline (fits, e) =
    let at : deadline_of started (some secs) ≡ some (some (started + secs * 1_000_000_000)) =
      ground arith in
    at ∙ ap some (sym e)

-- The user asked for the end, the time is over, or the process is gone.
abbrev pub IsOver : Option ℕ → Watched → Type 0
IsOver deadline q = (0 < q.sigints) ⊎ (HasPassed deadline q.now ⊎ (q.is_gone ≡ true))

stop_requested-lt : (n : ℕ) → 0 < n → stop_requested n ≡ true
unfolding stop_requested
stop_requested-lt zero h = absurd (omega arith)
stop_requested-lt (suc n) h = refl

lt-stop_requested : (n : ℕ) → stop_requested n ≡ true → 0 < n
unfolding stop_requested
lt-stop_requested zero e = absurd (ground arith)
lt-stop_requested (suc n) e = omega arith

should_stop_lem :
    (deadline : Option ℕ) (q : Watched) → IsOver deadline q → should_stop deadline q ≡ true
unfolding should_stop
should_stop_lem none q (inl asked) = rw (stop_requested-lt q.sigints asked)
should_stop_lem none q (inr (inl never)) = absurd never
should_stop_lem none q (inr (inr gone)) = ground arith
should_stop_lem (some at) q (inl asked) = rw (stop_requested-lt q.sigints asked)
should_stop_lem (some at) q (inr (inl passed)) = ground arith
should_stop_lem (some at) q (inr (inr gone)) = ground arith

goes_on : (deadline : Option ℕ) (q : Watched) → ¬ IsOver deadline q → should_stop deadline q ≡ false
unfolding should_stop
goes_on none q on = elim (Bool-cases (stop_requested q.sigints)) [
  | inl asked ↦ absurd (on (inl (lt-stop_requested q.sigints asked)))
  | inr quiet ↦ elim (Bool-cases q.is_gone) [
    | inl gone ↦ absurd (on (inr (inr gone)))
    | inr there ↦ ground arith
  ]
]
goes_on (some at) q on = elim (Bool-cases (stop_requested q.sigints)) [
  | inl asked ↦ absurd (on (inl (lt-stop_requested q.sigints asked)))
  | inr quiet ↦ elim (Bool-cases q.is_gone) [
    | inl gone ↦ absurd (on (inr (inr gone)))
    | inr there ↦ elim (Bool-cases (leb at q.now)) [
      | inl passed ↦ absurd (on (inr (inl (leb→le at q.now passed))))
      | inr early ↦ ground arith
    ]
  ]
]

-- The items that the rounds find, in order.
abbrev pub watched_items : List Watched → List Item
watched_items [] = []
watched_items (q ∷ watches) = q.items ++ watched_items watches

map-watch_of_append :
    (deadline : Option ℕ) (xs ys : List Watched)
    → map (watch_of deadline) (xs ++ ys) ≡ map (watch_of deadline) xs ++ map (watch_of deadline) ys
map-watch_of_append deadline [] ys = refl
map-watch_of_append deadline (x ∷ xs) ys =
    ap (◌∷◌ (watch_of deadline x)) (map-watch_of_append deadline xs ys)

all_items-watch_of :
    (deadline : Option ℕ) (watches : List Watched)
    → all_items (map (watch_of deadline) watches) ≡ watched_items watches
all_items-watch_of deadline [] = refl
all_items-watch_of deadline (q ∷ watches) =
    ap (λ x. q.items ++ x) (all_items-watch_of deadline watches)

watch_of-quiet :
    (deadline : Option ℕ) (watches : List Watched)
    → All (λ q. ¬ IsOver deadline q) watches
    → All (λ r. r.stop ≡ false) (map (watch_of deadline) watches)
watch_of-quiet deadline [] on = tt
watch_of-quiet deadline (q ∷ watches) on =
    (goes_on deadline q on.0, watch_of-quiet deadline watches on.1)

-- The drain of `attach` ends with the events sent up to the first round at which it is over.
pub drained_watch :
    (deadline : Option ℕ) (watches later : List Watched) (q : Watched) (last : List Item)
    (sent : List Sent)
    → All (λ q. ¬ IsOver deadline q) watches
    → IsOver deadline q
    → All IsWhole sent
    → watched_items watches ++ (q.items ++ last) ≡ map bytes sent
    → drain_ring_buffer found (map (watch_of deadline) (watches ++ q ∷ later)) last
      ≡ some (ok (map (λ x. from_event x.0) sent))
drained_watch deadline watches later q last sent on over whole same =
    rw (map-watch_of_append deadline watches (q ∷ later)) (
      drain_ring_buffer-events (map (watch_of deadline) watches) (map (watch_of deadline) later)
        (watch_of deadline q) last sent (watch_of-quiet deadline watches on)
        (should_stop_lem deadline q over) whole (rw (all_items-watch_of deadline watches) same))
