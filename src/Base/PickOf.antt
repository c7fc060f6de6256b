-- ===== src/Base/PickOf.antt =====
-- The greatest and the least element among those that satisfy a predicate, with the code's test for
-- the predicate taken out of the picture.
use whyslow.Base.Tests.{Bool-cases}
use whyslow.Base.Lists.{Elem, keep_if}
use whyslow.Base.Pick.{
  All, All-Elem, Elem-All, Elem-keep_if, keep_if-Elem, LastMax, last, before, LastMax-Elem,
  FirstMin, first, after, FirstMin-Elem,
}
use Prim.Native.Nat.{ℕ, ◌≤◌, ◌<◌}
use mathlib.Core.Path.{◌≡◌, refl, subst, sym}
use mathlib.Core.Logic.{◌⊎◌, inl, inr, ◌↔◌}
use mathlib.Core.Bool.{Bool, true, false}
use mathlib.Core.List.{List, [], ◌∷◌}
use native.Mathlib.Omega.{arith}

module _ {A : Type 0} (P : A → Type 0) (key : A → ℕ) where
  -- `m` satisfies `P`; of the elements that do, those before it are not greater and those behind it
  -- are less.
  pub data LastMaxOf (m : A) : List A → Type 0 where
    chosen : {ys : List A} → P m → All (λ y. P y → key y < key m) ys → LastMaxOf m (m ∷ ys)
    passed : {x : A} {ys : List A} → (P x → key x ≤ key m) → LastMaxOf m ys → LastMaxOf m (x ∷ ys)

  -- `m` satisfies `P`; of the elements that do, those before it are greater and those behind it are
  -- not less.
  pub data FirstMinOf (m : A) : List A → Type 0 where
    chosen_min : {ys : List A} → P m → All (λ y. P y → key m ≤ key y) ys → FirstMinOf m (m ∷ ys)
    passed_min :
        {x : A} {ys : List A} → (P x → key m < key x) → FirstMinOf m ys → FirstMinOf m (x ∷ ys)

module _ {A : Type 0} {P : A → Type 0} {key : A → ℕ} where
  pub LastMaxOf-Elem : {m : A} {xs : List A} → LastMaxOf P key m xs → Elem m xs × P m
  LastMaxOf-Elem (chosen p h) = (inl refl, p)
  LastMaxOf-Elem (passed h r) = let (e, p) = LastMaxOf-Elem r in (inr e, p)

  pub LastMaxOf-le :
      {m a : A} {xs : List A} → LastMaxOf P key m xs → Elem a xs → P a → key a ≤ key m
  LastMaxOf-le (chosen p h) (inl e) ok = rw e (omega arith)
  LastMaxOf-le {m} (chosen {ys = ys} p h) (inr i) ok =
      let less = Elem-All (λ y. P y → key y < key m) ys h i ok in omega arith
  LastMaxOf-le (passed h r) (inl e) ok = rw e (h (subst P e ok))
  LastMaxOf-le (passed h r) (inr i) ok = LastMaxOf-le r i ok

  pub FirstMinOf-le :
      {m a : A} {xs : List A} → FirstMinOf P key m xs → Elem a xs → P a → key m ≤ key a
  FirstMinOf-le (chosen_min p h) (inl e) ok = rw e (omega arith)
  FirstMinOf-le {m} (chosen_min {ys = ys} p h) (inr i) ok =
      Elem-All (λ y. P y → key m ≤ key y) ys h i ok
  FirstMinOf-le {m} (passed_min {x = x} h r) (inl e) ok =
      let less = h (subst P e ok) in rw e (omega arith)
  FirstMinOf-le (passed_min h r) (inr i) ok = FirstMinOf-le r i ok

  pub FirstMinOf-Elem : {m : A} {xs : List A} → FirstMinOf P key m xs → Elem m xs × P m
  FirstMinOf-Elem (chosen_min p h) = (inl refl, p)
  FirstMinOf-Elem (passed_min h r) = let (e, p) = FirstMinOf-Elem r in (inr e, p)

module _ {A : Type 0} {P : A → Type 0} {key : A → ℕ} where
  pub LastMaxOf-unique :
      {m n : A} {xs : List A} → LastMaxOf P key m xs → LastMaxOf P key n xs → m ≡ n
  LastMaxOf-unique (chosen p h) (chosen q k) = refl
  LastMaxOf-unique {m} {n} (chosen {ys = ys} p h) (passed k s) =
      let (e, q) = LastMaxOf-Elem s in
      let less = Elem-All (λ y. P y → key y < key m) ys h e q in
      let more = k p in absurd (omega arith)
  LastMaxOf-unique {m} {n} (passed h r) (chosen {ys = ys} q k) =
      let (e, p) = LastMaxOf-Elem r in
      let less = Elem-All (λ y. P y → key y < key n) ys k e p in
      let more = h q in absurd (omega arith)
  LastMaxOf-unique (passed h r) (passed k s) = LastMaxOf-unique r s

  pub FirstMinOf-unique :
      {m n : A} {xs : List A} → FirstMinOf P key m xs → FirstMinOf P key n xs → m ≡ n
  FirstMinOf-unique (chosen_min p h) (chosen_min q k) = refl
  FirstMinOf-unique {m} {n} (chosen_min {ys = ys} p h) (passed_min k s) =
      let (e, q) = FirstMinOf-Elem s in
      let more = Elem-All (λ y. P y → key m ≤ key y) ys h e q in
      let less = k p in absurd (omega arith)
  FirstMinOf-unique {m} {n} (passed_min h r) (chosen_min {ys = ys} q k) =
      let (e, p) = FirstMinOf-Elem r in
      let more = Elem-All (λ y. P y → key n ≤ key y) ys k e p in
      let less = h q in absurd (omega arith)
  FirstMinOf-unique (passed_min h r) (passed_min k s) = FirstMinOf-unique r s

module _ {A : Type 0} {key : A → ℕ} where
  LastMax-inv :
      {m x : A} {ys : List A}
      → LastMax key m (x ∷ ys)
      → ((x ≡ m) × All (λ y. key y < key m) ys) ⊎ ((key x ≤ key m) × LastMax key m ys)
  LastMax-inv (last h) = inl (refl, h)
  LastMax-inv (before h r) = inr (h, r)

  FirstMin-inv :
      {m x : A} {ys : List A}
      → FirstMin key m (x ∷ ys)
      → ((x ≡ m) × All (λ y. key m ≤ key y) ys) ⊎ ((key m < key x) × FirstMin key m ys)
  FirstMin-inv (first h) = inl (refl, h)
  FirstMin-inv (after h r) = inr (h, r)

module _ {A : Type 0} {P : A → Type 0} (key : A → ℕ) (p : A → Bool)
    (p_iff : (a : A) → (p a ≡ true) ↔ P a) where
  not_kept : {a : A} → p a ≡ false → ¬ P a
  not_kept {a} off h = let on : p a ≡ true = (p_iff a).1 h in cc

  to_All : (Q : A → Type 0) (xs : List A) → All Q (keep_if p xs) → All (λ y. P y → Q y) xs
  to_All Q xs h =
      All-Elem xs λ a m ok. Elem-All Q (keep_if p xs) h (keep_if-Elem p xs m ((p_iff a).1 ok))

  of_All : (Q : A → Type 0) (xs : List A) → All (λ y. P y → Q y) xs → All Q (keep_if p xs)
  of_All Q xs h =
      All-Elem (keep_if p xs) λ a m.
        let (e, on) = Elem-keep_if p xs m in Elem-All (λ y. P y → Q y) xs h e ((p_iff a).0 on)

  pub LastMax-keep_if : (m : A) (xs : List A) → LastMax key m (keep_if p xs) → LastMaxOf P key m xs
  LastMax-keep_if m [] l = absurd (LastMax-Elem l)
  LastMax-keep_if m (x ∷ xs) l = elim (Bool-cases (p x)) [
    | inl on ↦ elim (LastMax-inv (rw on at l)) [
      | inl (e, h) ↦
          subst (λ y. LastMaxOf P key m (y ∷ xs)) (sym e)
            (chosen (subst P e ((p_iff x).0 on)) (to_All (λ y. key y < key m) xs h))
      | inr (h, r) ↦ passed (λ _. h) (LastMax-keep_if m xs r)
    ]
    | inr off ↦ passed (λ ok. absurd (not_kept off ok)) (LastMax-keep_if m xs (rw off at l))
  ]

  pub keep_if-LastMax : {m : A} {xs : List A} → LastMaxOf P key m xs → LastMax key m (keep_if p xs)
  keep_if-LastMax {m} (chosen {ys = ys} ok h) =
      rw ((p_iff m).1 ok) (last (of_All (λ y. key y < key m) ys h))
  keep_if-LastMax (passed {x = x} h r) = elim (Bool-cases (p x)) [
    | inl on ↦ rw on (before (h ((p_iff x).0 on)) (keep_if-LastMax r))
    | inr off ↦ rw off (keep_if-LastMax r)
  ]

  pub FirstMin-keep_if :
      (m : A) (xs : List A) → FirstMin key m (keep_if p xs) → FirstMinOf P key m xs
  FirstMin-keep_if m [] l = absurd (FirstMin-Elem l)
  FirstMin-keep_if m (x ∷ xs) l = elim (Bool-cases (p x)) [
    | inl on ↦ elim (FirstMin-inv (rw on at l)) [
      | inl (e, h) ↦
          subst (λ y. FirstMinOf P key m (y ∷ xs)) (sym e)
            (chosen_min (subst P e ((p_iff x).0 on)) (to_All (λ y. key m ≤ key y) xs h))
      | inr (h, r) ↦ passed_min (λ _. h) (FirstMin-keep_if m xs r)
    ]
    | inr off ↦ passed_min (λ ok. absurd (not_kept off ok)) (FirstMin-keep_if m xs (rw off at l))
  ]

  pub keep_if-FirstMin :
      {m : A} {xs : List A} → FirstMinOf P key m xs → FirstMin key m (keep_if p xs)
  keep_if-FirstMin {m} (chosen_min {ys = ys} ok h) =
      rw ((p_iff m).1 ok) (first (of_All (λ y. key m ≤ key y) ys h))
  keep_if-FirstMin (passed_min {x = x} h r) = elim (Bool-cases (p x)) [
    | inl on ↦ rw on (after (h ((p_iff x).0 on)) (keep_if-FirstMin r))
    | inr off ↦ rw off (keep_if-FirstMin r)
  ]
