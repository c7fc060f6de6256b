-- ===== src/Synthetic/Exclusion.antt =====
-- synthetic/src/main.rs: at most one thread holds the mutex.
use whyslow.Base.{
  ℕ, ◌≡◌, ◌≢◌, subst, refl, sym, ◌∙◌, inl, inr, false, Bool-cases, arith, ◌==◌, ==→eq, ==_refl,
}
use whyslow.Synthetic.Mutex.{
  Pc, outside, entering, retrying, calling, asleep, holding, notifying, Mutex, put, Step,
  calls_lock, exchanges, exchange_fails, swap_locks, swap_fails, falls_asleep, wait_refused,
  returns, unlocks, unlocks_contended, wakes, wakes_nobody, Reachable, at_start, then_step,
}

pub record IsExclusive (word : ℕ) (at : ℕ → Pc) : Type 0 where
  pub free : word ≡ 0 → (u : ℕ) → at u ≢ holding
  pub one : (t u : ℕ) → at t ≡ holding → at u ≡ holding → t ≡ u
  pub held : word ≢ 0 → (u : ℕ) × (at u ≡ holding)

pub put_same : (t : ℕ) (p : Pc) (at : ℕ → Pc) → put t p at t ≡ p
put_same t p at = rw (==_refl t)

pub put_other : (t u : ℕ) (p : Pc) (at : ℕ → Pc) → u ≢ t → put t p at u ≡ at u
put_other t u p at ne = let off : (u == t) ≡ false = ground arith in rw off

-- A thread that neither held the mutex nor gets it; the word stays free or taken.
passes :
    (word word' : ℕ) (at : ℕ → Pc) (t : ℕ) (q : Pc)
    → at t ≢ holding
    → q ≢ holding
    → (word ≡ 0 → word' ≡ 0)
    → (word' ≡ 0 → word ≡ 0)
    → IsExclusive word at
    → IsExclusive word' (put t q at)
passes word word' at t q not_held not_taken to from v = record {
  free = λ e u h. elim (Bool-cases (u == t)) [
    | inl same ↦ ground arith
    | inr other ↦ v.free (from e) u (ground arith)
  ];
  one = λ a b h i. v.one a b (was a h) (was b i);
  held = λ ne.
      let (u, h) = v.held (λ e. ne (to e)) in
      (u, put_other t u q at (λ same. not_held (subst (λ x. at x ≡ holding) same h)) ∙ h);
}
  where
    was : (a : ℕ) → put t q at a ≡ holding → at a ≡ holding
    was a h = elim (Bool-cases (a == t)) [
      | inl same ↦ absurd (ground arith)
      | inr other ↦ ground arith
    ]

-- A thread that takes the free mutex.
takes :
    (word' : ℕ) (at : ℕ → Pc) (t : ℕ)
    → word' ≢ 0
    → IsExclusive 0 at
    → IsExclusive word' (put t holding at)
takes word' at t ne v = record {
  free = λ e. absurd (ne e);
  one = λ a b h i. is_it a h ∙ sym (is_it b i);
  held = λ _. (t, put_same t holding at);
}
  where
    is_it : (a : ℕ) → put t holding at a ≡ holding → a ≡ t
    is_it a h = elim (Bool-cases (a == t)) [
      | inl same ↦ ==→eq a t same
      | inr other ↦ absurd (v.free refl a (ground arith))
    ]

-- The holder lets it go.
lets_go :
    (word : ℕ) (at : ℕ → Pc) (t : ℕ) (q : Pc)
    → at t ≡ holding
    → q ≢ holding
    → IsExclusive word at
    → IsExclusive 0 (put t q at)
lets_go word at t q h ne v = record {
  free = λ _ u. nobody u;
  one = λ a b i j. absurd (nobody a i);
  held = λ never. absurd (never refl);
}
  where
    nobody : (u : ℕ) → put t q at u ≢ holding
    nobody u i = elim (Bool-cases (u == t)) [
      | inl same ↦ ground arith
      | inr other ↦ let same = v.one u t (ground arith) h in ground arith
    ]

Step-IsExclusive : {s s' : Mutex} → Step s s' → IsExclusive s.word s.at → IsExclusive s'.word s'.at
Step-IsExclusive {s = s} (calls_lock t e) v =
    passes s.word s.word s.at t entering (λ h. ground arith) (λ h. ground arith) (λ z. z) (λ z. z) v
Step-IsExclusive {s = s} (exchanges t e z) v =
    takes 1 s.at t (λ h. omega arith) (subst (λ w. IsExclusive w s.at) z v)
Step-IsExclusive {s = s} (exchange_fails t e z) v =
    passes s.word s.word s.at t retrying (λ h. ground arith) (λ h. ground arith) (λ z. z) (λ z. z) v
Step-IsExclusive {s = s} (swap_locks t e z) v =
    takes 2 s.at t (λ h. omega arith) (subst (λ w. IsExclusive w s.at) z v)
Step-IsExclusive {s = s} (swap_fails t e z) v =
    passes s.word 2 s.at t calling (λ h. ground arith) (λ h. ground arith) (λ q. absurd (z q))
      (λ q. omega arith) v
Step-IsExclusive {s = s} (falls_asleep t e z) v =
    passes s.word s.word s.at t asleep (λ h. ground arith) (λ h. ground arith) (λ z. z) (λ z. z) v
Step-IsExclusive {s = s} (wait_refused t e z) v =
    passes s.word s.word s.at t retrying (λ h. ground arith) (λ h. ground arith) (λ z. z) (λ z. z) v
Step-IsExclusive {s = s} (returns t e) v =
    passes s.word s.word s.at t retrying (λ h. ground arith) (λ h. ground arith) (λ z. z) (λ z. z) v
Step-IsExclusive {s = s} (unlocks t e z) v = lets_go s.word s.at t outside e (λ h. ground arith) v
Step-IsExclusive {s = s} (unlocks_contended t e z) v =
    lets_go s.word s.at t notifying e (λ h. ground arith) v
Step-IsExclusive {s = s} (wakes t u e f) v =
    passes s.word s.word (put t outside s.at) u retrying (λ h. ground arith) (λ h. ground arith)
      (λ z. z) (λ z. z)
      (passes s.word s.word s.at t outside (λ h. ground arith) (λ h. ground arith) (λ z. z) (λ z. z)
        v)
Step-IsExclusive {s = s} (wakes_nobody t e none_asleep) v =
    passes s.word s.word s.at t outside (λ h. ground arith) (λ h. ground arith) (λ z. z) (λ z. z) v

pub Reachable-IsExclusive : {s : Mutex} → Reachable s → IsExclusive s.word s.at
Reachable-IsExclusive at_start = record {
  free = λ e u h. ground arith;
  one = λ t u h i. absurd (ground arith);
  held = λ ne. absurd (ne refl);
}
Reachable-IsExclusive (then_step r step) = Step-IsExclusive step (Reachable-IsExclusive r)

-- Whatever threads run, in whatever order, and with whatever returns from sleep: at most one thread
-- holds the mutex, and one does exactly if the word is not 0.
pub mutual_exclusion :
    (s : Mutex)
    → Reachable s
    → ((t u : ℕ) → s.at t ≡ holding → s.at u ≡ holding → t ≡ u)
      × ((s.word ≢ 0 → (t : ℕ) × (s.at t ≡ holding)) × ((t : ℕ) → s.at t ≡ holding → s.word ≢ 0))
mutual_exclusion s r = let v = Reachable-IsExclusive r in (v.one, (v.held, λ t h e. v.free e t h))
