-- ===== src/Ebpf/Concrete.antt =====
-- Hash maps as association lists and a ring buffer of bounded length: concrete instances of the
-- interfaces of whyslow-ebpf/src/main.rs to the kernel, for runs on concrete hits.
use whyslow.Base.{
  ℕ, ◌≡◌, refl, ap, subst, inl, inr, Option, none, some, List, [], ◌∷◌, ◌++◌, arith, ◌==◌,
  Bool-cases, if◌then◌else◌, ltb, length,
}
use whyslow.Event.Schema.{Event}
use whyslow.Ebpf.Kernel.{BpfMap, RingBuf}
use whyslow.Ebpf.Probes.{Maps, BlockStart, FutexStart, BlockIoStart}

module _ {V : Type 0} where
  abbrev pub find : ℕ → List (ℕ × V) → Option V
  find k [] = none
  find k (e ∷ m) = let rest = find k m in if k == e.0 then some e.1 else rest

  abbrev pub without : ℕ → List (ℕ × V) → List (ℕ × V)
  without k [] = []
  without k (e ∷ m) = let rest = without k m in if k == e.0 then rest else e ∷ rest

  pub find-without :
      (j k : ℕ) (m : List (ℕ × V)) → find j (without k m) ≡ (if j == k then none else find j m)
  find-without j k [] = elim (Bool-cases (j == k)) [ inl e ↦ rw e | inr e ↦ rw e ]
  find-without j k (e ∷ m) =
      let rest = find-without j k m in
      elim (Bool-cases (k == e.0)) [ inl p ↦ ground arith | inr p ↦ ground arith ]

  abbrev pub put : ℕ → V → List (ℕ × V) → Option (List (ℕ × V))
  put k v m = some ((k, v) ∷ m)

  pub find-put :
      (j k : ℕ) (v : V) (m m' : List (ℕ × V))
      → put k v m ≡ some m'
      → find j m' ≡ (if j == k then some v else find j m)
  find-put j k v m m' e =
      let same : (k, v) ∷ m ≡ m' = ap (λ o. elim o [ none ↦ [] | some x ↦ x ]) e in
      subst (λ x. find j x ≡ (if j == k then some v else find j m)) same refl

abbrev pub assoc : (V : Type 0) → BpfMap V
assoc V = record {
  Map = List (ℕ × V);
  empty = [];
  get = find;
  insert = put;
  remove = without;
  get-empty = λ k. refl;
  get-insert = find-put;
  get-remove = find-without;
}

abbrev pub push : ℕ → Event → List Event → Option (List Event)
push room ev r = if ltb (length r) room then some (r ++ ev ∷ []) else none

pub push-queued :
    (room : ℕ) (ev : Event) (r r' : List Event) → push room ev r ≡ some r' → r' ≡ r ++ ev ∷ []
push-queued room ev r r' e = elim (Bool-cases (ltb (length r) room)) [
  | inl fits ↦ ground arith
  | inr full ↦ ground arith
]

-- A buffer with room for `room` events in all.
abbrev pub bounded : ℕ → RingBuf
bounded room = record {
  Ring = List Event;
  fresh = [];
  queued = λ r. r;
  submit = push room;
  queued-fresh = refl;
  queued-submit = push-queued room;
}

abbrev pub maps : Maps
maps = record {
  blocks = assoc BlockStart;
  futexes = assoc FutexStart;
  ios = assoc BlockIoStart;
  ring = bounded 8;
}
