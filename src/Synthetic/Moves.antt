-- ===== src/Synthetic/Moves.antt =====
-- synthetic/src/main.rs: a sound state of `main` and its threads, and moves that keep it sound.
use whyslow.Base.{
  ℕ, ◌≡◌, ◌≢◌, refl, sym, ◌∙◌, ap, subst, ◌⊎◌, inl, inr, Bool, true, false, Bool-cases, some, arith,
  ◌==◌, ==→eq, ==_refl,
}
use whyslow.Synthetic.Mutex.{Pc, Mutex, put}
use whyslow.Synthetic.Program.{
  Place, unspawned, reading, panicked, MainPlace, done, holder, waiter, set_at, Program,
}
use whyslow.Synthetic.Sound.{Fits, AllFit, is_past, Joined, IsRunning, Joined-holder, Joined-waiter}

pub record IsSound (p : Program) : Type 0 where
  pub fits : AllFit p.places p.mutex.at
  pub flag : p.holder_acquired ≡ is_past (p.places holder)
  pub joined : Joined p.main (p.places holder) (p.places waiter) p.holder_acquired
  pub others : (t : ℕ) → t ≢ holder → t ≢ waiter → p.places t ≡ unspawned
  pub waiter_there : (p.places waiter ≢ reading) × (p.places waiter ≢ panicked)
  pub printed : p.main ≡ done → p.line ≡ some (p.tids holder, p.tids waiter)

pub Joined-at :
    (p : Program) (main : MainPlace)
    → IsSound p
    → p.main ≡ main
    → Joined main (p.places holder) (p.places waiter) p.holder_acquired
Joined-at p main v e =
    subst (λ m. Joined m (p.places holder) (p.places waiter) p.holder_acquired) e v.joined

pub which : (p : Program) (t : ℕ) → IsSound p → p.places t ≢ unspawned → (t ≡ holder) ⊎ (t ≡ waiter)
which p t v there = elim (Bool-cases (t == holder)) [
  | inl same ↦ inl (==→eq t holder same)
  | inr off ↦ elim (Bool-cases (t == waiter)) [
    | inl same ↦ inr (==→eq t waiter same)
    | inr off' ↦ absurd (there (v.others t (λ e. ground arith) (λ e. ground arith)))
  ]
]

-- The thread `t` goes on to `y`, and with it the mutex, the ids and the flag.
abbrev after_move : Program → Place → Mutex → (ℕ → ℕ) → Bool → ℕ → Program
after_move p y m tids flag t = record p {
  places = set_at t y p.places;
  mutex = m;
  tids = tids;
  holder_acquired = flag;
}

abbrev Moves : Program → Place → Mutex → (ℕ → ℕ) → Bool → ℕ → Type 0
Moves p y m tids flag t =
    IsRunning (p.places t)
    → y ≢ unspawned
    → AllFit (set_at t y p.places) m.at
    → flag ≡ is_past (set_at t y p.places holder)
    → (is_past (p.places t) ≡ true → is_past y ≡ true)
    → (t ≡ waiter → (y ≢ reading) × (y ≢ panicked))
    → IsSound (after_move p y m tids flag t)

not_done :
    (main : MainPlace) (h w : Place) (flag : Bool)
    → IsRunning h ⊎ IsRunning w
    → Joined main h w flag
    → main ≢ done
not_done main h w flag r j e =
    let last = subst (λ m. Joined m h w flag) e j in
    elim r [ inl r ↦ r.1.0 last.0 | inr r ↦ r.1.0 last.1.0 ]

pub set_other : {A : Type 0} (t u : ℕ) (a : A) (f : ℕ → A) → u ≢ t → set_at t a f u ≡ f u
set_other t u a f ne = let off : (u == t) ≡ false = ground arith in rw off refl

set_same : {A : Type 0} (t : ℕ) (a : A) (f : ℕ → A) → set_at t a f t ≡ a
set_same t a f = rw (==_refl t) refl

Moves-holder :
    (p : Program) (y : Place) (m : Mutex) (tids : ℕ → ℕ) (flag : Bool)
    → IsSound p
    → Moves p y m tids flag holder
Moves-holder p y m tids flag v r n fits flags past there = record {
  fits = fits;
  flag = flags;
  joined =
      Joined-holder p.main (p.places holder) y (p.places waiter) p.holder_acquired flag r n
        (λ e. flags ∙ past (sym v.flag ∙ e)) v.joined;
  others = λ t a b. set_other holder t y p.places a ∙ v.others t a b;
  waiter_there = v.waiter_there;
  printed = λ e.
      absurd
        (not_done p.main (p.places holder) (p.places waiter) p.holder_acquired (inl r) v.joined e);
}

Moves-waiter :
    (p : Program) (y : Place) (m : Mutex) (tids : ℕ → ℕ) (flag : Bool)
    → IsSound p
    → Moves p y m tids flag waiter
Moves-waiter p y m tids flag v r n fits flags past there = record {
  fits = fits;
  flag = flags;
  joined =
      subst (Joined p.main (p.places holder) y) (v.flag ∙ sym flags)
        (Joined-waiter p.main (p.places holder) (p.places waiter) y p.holder_acquired r n v.joined);
  others = λ t a b. set_other waiter t y p.places b ∙ v.others t a b;
  waiter_there = there refl;
  printed = λ e.
      absurd
        (not_done p.main (p.places holder) (p.places waiter) p.holder_acquired (inr r) v.joined e);
}

pub moves :
    (p : Program) (t : ℕ) (y : Place) (m : Mutex) (tids : ℕ → ℕ) (flag : Bool)
    → IsSound p
    → Moves p y m tids flag t
moves p t y m tids flag v r = elim (which p t v r.0) [
  | inl e ↦ subst (Moves p y m tids flag) (sym e) (Moves-holder p y m tids flag v) r
  | inr e ↦ subst (Moves p y m tids flag) (sym e) (Moves-waiter p y m tids flag v) r
]

pub place-AllFit :
    (places : ℕ → Place) (at : ℕ → Pc) (t : ℕ) (y : Place)
    → AllFit places at
    → Fits y (at t)
    → AllFit (set_at t y places) at
place-AllFit places at t y fits here u = elim (Bool-cases (u == t)) [
  | inl same ↦ rw same (subst (λ x. Fits y (at x)) (sym (==→eq u t same)) here)
  | inr other ↦ rw other (fits u)
]

pub both-AllFit :
    (places : ℕ → Place) (at : ℕ → Pc) (t : ℕ) (y : Place) (q : Pc)
    → AllFit places at
    → Fits y q
    → AllFit (set_at t y places) (put t q at)
both-AllFit places at t y q fits here u = elim (Bool-cases (u == t)) [
  | inl same ↦ rw same here
  | inr other ↦ rw other (fits u)
]

-- The flag stays as it is where a thread that goes on is behind its call of `lock` before and after, or
-- neither before nor after.
kept_flag :
    (p : Program) (t : ℕ) (y : Place)
    → IsSound p
    → is_past (p.places t) ≡ is_past y
    → p.holder_acquired ≡ is_past (set_at t y p.places holder)
kept_flag p t y v same = elim (Bool-cases (holder == t)) [
  | inl here ↦ rw here (v.flag ∙ ap (λ x. is_past (p.places x)) (==→eq holder t here) ∙ same)
  | inr off ↦ rw off v.flag
]

pub steps :
    (p : Program) (t : ℕ) (x y : Place) (m : Mutex) (tids : ℕ → ℕ)
    → IsSound p
    → p.places t ≡ x
    → IsRunning x
    → y ≢ unspawned
    → is_past x ≡ is_past y
    → AllFit (set_at t y p.places) m.at
    → (t ≡ waiter → (y ≢ reading) × (y ≢ panicked))
    → IsSound (after_move p y m tids p.holder_acquired t)
steps p t x y m tids v e r n same fits there =
    let same' = ap is_past e ∙ same in
    moves p t y m tids p.holder_acquired v (subst IsRunning (sym e) r) n fits
      (kept_flag p t y v same') (λ past. sym same' ∙ past) there

pub Fits-at : (p : Program) (t : ℕ) (x : Place) → IsSound p → p.places t ≡ x → Fits x (p.mutex.at t)
Fits-at p t x v e = subst (λ x. Fits x (p.mutex.at t)) e (v.fits t)
