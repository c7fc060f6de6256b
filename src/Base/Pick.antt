-- ===== src/Base/Pick.antt =====
-- `Iterator::max_by_key` (the last of the greatest) and `min_by_key` (the first of the least).
use Prim.Native.Nat.{ℕ, ◌≤◌, ◌<◌}
use mathlib.Core.Path.{◌≡◌, refl}
use mathlib.Core.Logic.{inl, inr, ◌↔◌}
use mathlib.Core.Bool.{Bool, true}
use mathlib.Core.Option.{Option, none, some}
use mathlib.Core.List.{List, [], ◌∷◌, ◌++◌}
use native.Mathlib.Omega.{arith}
use whyslow.Base.Tests.{ltb, if◌then◌else◌, Bool-cases, ltb→lt}
use whyslow.Base.Lists.{Elem, keep_if}

abbrev pub All {ℓ κ} : {A : Type ℓ} → (A → Type κ) → List A → Type κ
All P [] = Unit
All P (x ∷ xs) = P x × All P xs

module _ {A : Type 0} where
  pub All-append {κ} : (P : A → Type κ) (xs ys : List A) → All P xs → All P ys → All P (xs ++ ys)
  All-append P [] ys front back = back
  All-append P (x ∷ xs) ys front back = (front.0, All-append P xs ys front.1 back)

  pub Elem-All {κ} : (P : A → Type κ) {a : A} (xs : List A) → All P xs → Elem a xs → P a
  Elem-All P [] h m = absurd m
  Elem-All P (x ∷ xs) h (inl e) = rw e h.0
  Elem-All P (x ∷ xs) h (inr m) = Elem-All P xs h.1 m

  pub All-Elem {κ} : {P : A → Type κ} (xs : List A) → ((a : A) → Elem a xs → P a) → All P xs
  All-Elem [] h = tt
  All-Elem (x ∷ xs) h = (h x (inl refl), All-Elem xs (λ a m. h a (inr m)))

  pub Elem-keep_if :
      (p : A → Bool) (xs : List A) {a : A} → Elem a (keep_if p xs) → Elem a xs × (p a ≡ true)
  Elem-keep_if p [] m = absurd m
  Elem-keep_if p (x ∷ xs) {a} m = ground (arith, Elem-keep_if p xs {a = a})

  pub keep_if-Elem :
      (p : A → Bool) (xs : List A) {a : A} → Elem a xs → p a ≡ true → Elem a (keep_if p xs)
  keep_if-Elem p [] m h = m
  keep_if-Elem p (x ∷ xs) {a} m h = ground (arith, keep_if-Elem p xs {a = a})

module _ {A : Type 0} (key : A → ℕ) where
  -- One step of the fold: on a tie the later element wins.
  pub fold_max : A → List A → A
  fold_max best [] = best
  fold_max best (x ∷ xs) = fold_max (if ltb (key x) (key best) then best else x) xs

  unfoldable pub max_by_key : List A → Option A
  unfolding fold_max
  max_by_key [] = none
  max_by_key (x ∷ xs) = some (fold_max x xs)

  -- On a tie the earlier element wins.
  pub fold_min : A → List A → A
  fold_min best [] = best
  fold_min best (x ∷ xs) = fold_min (if ltb (key x) (key best) then x else best) xs

  unfoldable pub min_by_key : List A → Option A
  unfolding fold_min
  min_by_key [] = none
  min_by_key (x ∷ xs) = some (fold_min x xs)

  -- `m` stands in the list, no element is greater, and all behind it are less.
  pub data LastMax (m : A) : List A → Type 0 where
    last : {ys : List A} → All (λ y. key y < key m) ys → LastMax m (m ∷ ys)
    before : {x : A} {ys : List A} → key x ≤ key m → LastMax m ys → LastMax m (x ∷ ys)

  -- `m` stands in the list, no element is less, and all before it are greater.
  pub data FirstMin (m : A) : List A → Type 0 where
    first : {ys : List A} → All (λ y. key m ≤ key y) ys → FirstMin m (m ∷ ys)
    after : {x : A} {ys : List A} → key m < key x → FirstMin m ys → FirstMin m (x ∷ ys)

module _ {A : Type 0} {key : A → ℕ} where
  pub LastMax-le : {m : A} {xs : List A} → LastMax key m xs → All (λ y. key y ≤ key m) xs
  LastMax-le (last {ys = ys} h) = (omega arith, All-Elem ys (λ a e. weaken (Elem-All _ ys h e)))
    where
      weaken : {a b : ℕ} → a < b → a ≤ b
      weaken h = omega arith
  LastMax-le (before h r) = (h, LastMax-le r)

  pub LastMax-Elem : {m : A} {xs : List A} → LastMax key m xs → Elem m xs
  LastMax-Elem (last h) = inl refl
  LastMax-Elem (before h r) = inr (LastMax-Elem r)

  pub FirstMin-le : {m : A} {xs : List A} → FirstMin key m xs → All (λ y. key m ≤ key y) xs
  FirstMin-le (first h) = (omega arith, h)
  FirstMin-le (after h r) = (omega arith, FirstMin-le r)

  pub FirstMin-Elem : {m : A} {xs : List A} → FirstMin key m xs → Elem m xs
  FirstMin-Elem (first h) = inl refl
  FirstMin-Elem (after h r) = inr (FirstMin-Elem r)

  LastMax-insert :
      {m x : A} (y : A) {ys : List A}
      → key y < key x
      → LastMax key m (x ∷ ys)
      → LastMax key m (x ∷ y ∷ ys)
  LastMax-insert y h (last l) = last (h, l)
  LastMax-insert y h (before l r) = before l (before (omega arith) r)

  FirstMin-insert :
      {m x : A} (y : A) {ys : List A}
      → key x ≤ key y
      → FirstMin key m (x ∷ ys)
      → FirstMin key m (x ∷ y ∷ ys)
  FirstMin-insert y h (first l) = first (h, l)
  FirstMin-insert y h (after l r) = after l (after (omega arith) r)

  fold_max-LastMax : (x : A) (ys : List A) → LastMax key (fold_max key x ys) (x ∷ ys)
  unfolding fold_max
  fold_max-LastMax x [] = last tt
  fold_max-LastMax x (y ∷ ys) = elim (Bool-cases (ltb (key y) (key x))) [
    | inl less ↦ rw less (LastMax-insert y (ltb→lt _ _ less) (fold_max-LastMax x ys))
    | inr more ↦
        let rest = fold_max-LastMax y ys in
        rw more (before (ground (arith, (LastMax-le rest).0)) rest)
  ]

  fold_min-FirstMin : (x : A) (ys : List A) → FirstMin key (fold_min key x ys) (x ∷ ys)
  unfolding fold_min
  fold_min-FirstMin x [] = first tt
  fold_min-FirstMin x (y ∷ ys) = elim (Bool-cases (ltb (key y) (key x))) [
    | inl less ↦
        let rest = fold_min-FirstMin y ys in
        rw less (after (ground (arith, (FirstMin-le rest).0)) rest)
    | inr more ↦ rw more (FirstMin-insert y (ground arith) (fold_min-FirstMin x ys))
  ]

  pub LastMax-unique : {m n : A} {xs : List A} → LastMax key m xs → LastMax key n xs → m ≡ n
  LastMax-unique (last h) (last k) = refl
  LastMax-unique (last {ys = ys} h) (before k r) =
      absurd (omega (arith, Elem-All _ ys h (LastMax-Elem r)))
  LastMax-unique (before h r) (last {ys = ys} k) =
      absurd (omega (arith, Elem-All _ ys k (LastMax-Elem r)))
  LastMax-unique (before h r) (before k s) = LastMax-unique r s

  pub FirstMin-unique : {m n : A} {xs : List A} → FirstMin key m xs → FirstMin key n xs → m ≡ n
  FirstMin-unique (first h) (first k) = refl
  FirstMin-unique (first {ys = ys} h) (after k r) =
      absurd (omega (arith, Elem-All _ ys h (FirstMin-Elem r)))
  FirstMin-unique (after h r) (first {ys = ys} k) =
      absurd (omega (arith, Elem-All _ ys k (FirstMin-Elem r)))
  FirstMin-unique (after h r) (after k s) = FirstMin-unique r s

  pub max_by_key-iff_LastMax :
      (xs : List A) (m : A) → (max_by_key key xs ≡ some m) ↔ LastMax key m xs
  unfolding max_by_key
  max_by_key-iff_LastMax [] m = (λ e. cc, λ l. absurd (LastMax-Elem l))
  max_by_key-iff_LastMax (x ∷ xs) m = (
    λ e. subst-some e (fold_max-LastMax x xs),
    λ l. ground (arith, LastMax-unique (fold_max-LastMax x xs) l),
  )
    where
      subst-some : {a b : A} {ys : List A} → some a ≡ some b → LastMax key a ys → LastMax key b ys
      subst-some {a} {b} e l = let p : a ≡ b = cc in rw p at l

  pub min_by_key-iff_FirstMin :
      (xs : List A) (m : A) → (min_by_key key xs ≡ some m) ↔ FirstMin key m xs
  unfolding min_by_key
  min_by_key-iff_FirstMin [] m = (λ e. cc, λ l. absurd (FirstMin-Elem l))
  min_by_key-iff_FirstMin (x ∷ xs) m = (
    λ e. subst-some e (fold_min-FirstMin x xs),
    λ l. ground (arith, FirstMin-unique (fold_min-FirstMin x xs) l),
  )
    where
      subst-some : {a b : A} {ys : List A} → some a ≡ some b → FirstMin key a ys → FirstMin key b ys
      subst-some {a} {b} e l = let p : a ≡ b = cc in rw p at l

module _ {A : Type 0} (key : A → ℕ) where
  pub max_by_key-eq_none : (xs : List A) → max_by_key key xs ≡ none → xs ≡ []
  unfolding max_by_key
  max_by_key-eq_none [] h = refl
  max_by_key-eq_none (x ∷ xs) h = cc

  pub min_by_key-eq_none : (xs : List A) → min_by_key key xs ≡ none → xs ≡ []
  unfolding min_by_key
  min_by_key-eq_none [] h = refl
  min_by_key-eq_none (x ∷ xs) h = cc
