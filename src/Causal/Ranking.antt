-- ===== src/Causal/Ranking.antt =====
-- whyslow-cli/src/causal.rs: the blocked intervals in the order of `explain`, longest first.
use mathlib.Core.List.{Perm}
use mathlib.Core.List.Perm
use whyslow.Base.{
  min, ℕ, zero, suc, ◌≤◌, ◌≡◌, refl, ap, ◌∙◌, inl, inr, List, [], ◌∷◌, ◌++◌, arith, ltb, ◌==◌,
  if◌then◌else◌, Bool-cases, length, take, drop, keep_if, All, Elem, Elem-All, All-Elem,
  take-append-drop, length-take,
}
use whyslow.Trace.Defs.{TraceEvent}

-- One insertion of the stable sort: `e` comes before the events that last no longer.
unfoldable pub insert_by_duration : TraceEvent → List TraceEvent → List TraceEvent
insert_by_duration e [] = e ∷ []
insert_by_duration e (x ∷ xs) =
    let further = x ∷ insert_by_duration e xs in
    if ltb e.duration_ns x.duration_ns then further else e ∷ x ∷ xs

-- `blocks.sort_by(|a, b| b.duration_ns.cmp(&a.duration_ns))`, a stable sort.
unfoldable pub sort_by_duration : List TraceEvent → List TraceEvent
unfolding insert_by_duration
sort_by_duration [] = []
sort_by_duration (e ∷ es) = insert_by_duration e (sort_by_duration es)

-- The first `slowest` of the sorted events.
unfoldable pub slowest_blocks : ℕ → List TraceEvent → List TraceEvent
slowest_blocks slowest blocks = take slowest (sort_by_duration blocks)

-- The durations do not grow along the list.
abbrev pub LongestFirst : List TraceEvent → Type 0
LongestFirst [] = Unit
LongestFirst (x ∷ xs) = All (λ y. y.duration_ns ≤ x.duration_ns) xs × LongestFirst xs

insert_by_duration-perm :
    (e : TraceEvent) (xs : List TraceEvent) → Perm (insert_by_duration e xs) (e ∷ xs)
unfolding insert_by_duration
insert_by_duration-perm e [] = Perm.refl (e ∷ [])
insert_by_duration-perm e (x ∷ xs) = elim (Bool-cases (ltb e.duration_ns x.duration_ns)) [
  | inl less ↦ rw less (Perm.trans (Perm.cons x (insert_by_duration-perm e xs)) (Perm.swap e x xs))
  | inr more ↦ rw more (Perm.refl (e ∷ x ∷ xs))
]

pub sort_by_duration-perm : (xs : List TraceEvent) → Perm (sort_by_duration xs) xs
unfolding sort_by_duration
sort_by_duration-perm [] = Perm.refl []
sort_by_duration-perm (e ∷ es) =
    Perm.trans (insert_by_duration-perm e (sort_by_duration es))
      (Perm.cons e (sort_by_duration-perm es))

All-insert :
    (P : TraceEvent → Type 0) (e : TraceEvent) (xs : List TraceEvent)
    → P e
    → All P xs
    → All P (insert_by_duration e xs)
unfolding insert_by_duration
All-insert P e [] p h = (p, tt)
All-insert P e (x ∷ xs) p h = elim (Bool-cases (ltb e.duration_ns x.duration_ns)) [
  | inl less ↦ rw less (h.0, All-insert P e xs p h.1)
  | inr more ↦ rw more (p, h)
]

insert_by_duration-LongestFirst :
    (e : TraceEvent) (xs : List TraceEvent)
    → LongestFirst xs
    → LongestFirst (insert_by_duration e xs)
unfolding insert_by_duration
insert_by_duration-LongestFirst e [] h = (tt, tt)
insert_by_duration-LongestFirst e (x ∷ xs) h = elim (Bool-cases (ltb e.duration_ns x.duration_ns)) [
  | inl less ↦ rw less (
    All-insert (λ y. y.duration_ns ≤ x.duration_ns) e xs (ground arith) h.0,
    insert_by_duration-LongestFirst e xs h.1,
  )
  | inr more ↦
      let below : x.duration_ns ≤ e.duration_ns = ground arith in
      rw more (
        (
          below,
          All-Elem xs
              (λ y m. shorter (Elem-All (λ z. z.duration_ns ≤ x.duration_ns) xs h.0 m) below),
        ),
        h,
      )
]
  where
    shorter : {a b c : ℕ} → a ≤ b → b ≤ c → a ≤ c
    shorter p q = omega arith

sort_by_duration-LongestFirst : (xs : List TraceEvent) → LongestFirst (sort_by_duration xs)
unfolding sort_by_duration
sort_by_duration-LongestFirst [] = tt
sort_by_duration-LongestFirst (e ∷ es) =
    insert_by_duration-LongestFirst e (sort_by_duration es) (sort_by_duration-LongestFirst es)

length-insert :
    (e : TraceEvent) (xs : List TraceEvent) → length (insert_by_duration e xs) ≡ suc (length xs)
unfolding insert_by_duration
length-insert e [] = refl
length-insert e (x ∷ xs) = ground (arith, length-insert e xs)

length-sort : (xs : List TraceEvent) → length (sort_by_duration xs) ≡ length xs
unfolding sort_by_duration
length-sort [] = refl
length-sort (e ∷ es) = omega (arith, length-insert e (sort_by_duration es), length-sort es)

pub length-slowest_blocks :
    (slowest : ℕ) (blocks : List TraceEvent)
    → length (slowest_blocks slowest blocks) ≡ min slowest (length blocks)
unfolding slowest_blocks
length-slowest_blocks slowest blocks =
    omega (arith, length-take slowest (sort_by_duration blocks), length-sort blocks)

-- The events of one duration, in the order of the list.
abbrev pub lasting : ℕ → List TraceEvent → List TraceEvent
lasting d = keep_if (λ e. e.duration_ns == d)

insert_by_duration-lasting :
    (d : ℕ) (e : TraceEvent) (xs : List TraceEvent)
    → lasting d (insert_by_duration e xs) ≡ lasting d (e ∷ xs)
unfolding insert_by_duration
insert_by_duration-lasting d e [] = refl
insert_by_duration-lasting d e (x ∷ xs) = ground (arith, insert_by_duration-lasting d e xs)

sort_by_duration-lasting :
    (d : ℕ) (xs : List TraceEvent) → lasting d (sort_by_duration xs) ≡ lasting d xs
unfolding sort_by_duration
sort_by_duration-lasting d [] = refl
sort_by_duration-lasting d (e ∷ es) =
    insert_by_duration-lasting d e (sort_by_duration es)
    ∙ ap (λ (r : List TraceEvent). if e.duration_ns == d then e ∷ r else r)
        (sort_by_duration-lasting d es)

LongestFirst-split :
    (n : ℕ) (xs : List TraceEvent)
    → LongestFirst xs
    → (a b : TraceEvent) → Elem a (take n xs)
    → Elem b (drop n xs)
    → b.duration_ns ≤ a.duration_ns
LongestFirst-split zero xs h a b p q = absurd p
LongestFirst-split (suc n) [] h a b p q = absurd p
LongestFirst-split (suc n) (x ∷ xs) h a b (inl e) q =
    rw e (Elem-All (λ y. y.duration_ns ≤ x.duration_ns) xs h.0 (Elem-drop n xs q))
  where
    Elem-drop : (k : ℕ) (ys : List TraceEvent) → Elem b (drop k ys) → Elem b ys
    Elem-drop zero ys m = m
    Elem-drop (suc k) [] m = m
    Elem-drop (suc k) (y ∷ ys) m = inr (Elem-drop k ys m)
LongestFirst-split (suc n) (x ∷ xs) h a b (inr p) q = LongestFirst-split n xs h.1 a b p q

LongestFirst-take : (n : ℕ) (xs : List TraceEvent) → LongestFirst xs → LongestFirst (take n xs)
LongestFirst-take zero xs h = tt
LongestFirst-take (suc n) [] h = tt
LongestFirst-take (suc n) (x ∷ xs) h = (All-take n xs h.0, LongestFirst-take n xs h.1)
  where
    All-take :
        (k : ℕ) (ys : List TraceEvent)
        → All (λ y. y.duration_ns ≤ x.duration_ns) ys
        → All (λ y. y.duration_ns ≤ x.duration_ns) (take k ys)
    All-take zero ys a = tt
    All-take (suc k) [] a = tt
    All-take (suc k) (y ∷ ys) a = (a.0, All-take k ys a.1)

-- What is left out of the ranking.
abbrev pub passed_over : ℕ → List TraceEvent → List TraceEvent
passed_over slowest blocks = drop slowest (sort_by_duration blocks)

-- The events that are explained are at most `slowest`, longest first; with the events passed over
-- they are the given events, none lost and none twice; and no event passed over lasted longer than
-- one that is explained.
pub slowest_blocks_lem :
    (slowest : ℕ) (blocks : List TraceEvent)
    → (length (slowest_blocks slowest blocks) ≤ slowest)
      × LongestFirst (slowest_blocks slowest blocks)
      × Perm (slowest_blocks slowest blocks ++ passed_over slowest blocks) blocks
      × ((a b : TraceEvent)
          → Elem a (slowest_blocks slowest blocks)
          → Elem b (passed_over slowest blocks)
          → b.duration_ns ≤ a.duration_ns)
unfolding slowest_blocks
slowest_blocks_lem slowest blocks =
    let sorted = sort_by_duration-LongestFirst blocks in
    (
      omega (arith, length-take slowest (sort_by_duration blocks)),
      LongestFirst-take slowest (sort_by_duration blocks) sorted,
      rw (take-append-drop slowest (sort_by_duration blocks)) (sort_by_duration-perm blocks),
      LongestFirst-split slowest (sort_by_duration blocks) sorted,
    )

-- Events of equal duration stay in the order in which they were recorded.
pub slowest_blocks-stable :
    (d slowest : ℕ) (blocks : List TraceEvent)
    → lasting d (slowest_blocks slowest blocks ++ passed_over slowest blocks) ≡ lasting d blocks
unfolding slowest_blocks
slowest_blocks-stable d slowest blocks =
    rw (take-append-drop slowest (sort_by_duration blocks)) (sort_by_duration-lasting d blocks)
