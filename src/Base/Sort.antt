-- ===== src/Base/Sort.antt =====
-- A stable sort, as that of JavaScript arrays is, with the places of its elements.
use Prim.Native.Nat.{ℕ, ◌≤◌}
use mathlib.Core.Bool.{Bool}
use mathlib.Core.List.{List, [], ◌∷◌, Perm}
use mathlib.Core.List.Perm
use mathlib.Core.Logic.{inl, inr}
use native.Mathlib.Omega.{arith}
use gyges_research_layer.Base.Tests.{if◌then◌else◌, leb, Bool-cases}
use gyges_research_layer.Base.Lists.{All, All-mono}

module _ {ℓ} {A : Type ℓ} where
  -- `before x y` says that `x`, which stands before `y` at first, stays before it.
  unfoldable pub insert : (A → A → Bool) → A → List A → List A
  insert before x [] = x ∷ []
  insert before x (y ∷ ys) = if before x y then x ∷ y ∷ ys else y ∷ insert before x ys

  unfoldable pub sort : (A → A → Bool) → List A → List A
  sort before [] = []
  sort before (x ∷ xs) = insert before x (sort before xs)

  pub insert_perm :
      (before : A → A → Bool) (x : A) (ys : List A) → Perm (insert before x ys) (x ∷ ys)
  unfolding insert
  insert_perm before x [] = Perm.refl (x ∷ [])
  insert_perm before x (y ∷ ys) = elim (Bool-cases (before x y)) [
    | inl h ↦ rw h (Perm.refl (x ∷ y ∷ ys))
    | inr h ↦ rw h (Perm.trans (Perm.cons y (insert_perm before x ys)) (Perm.swap x y ys))
  ]

  pub sort_perm : (before : A → A → Bool) (xs : List A) → Perm (sort before xs) xs
  unfolding sort
  sort_perm before [] = Perm.refl []
  sort_perm before (x ∷ xs) =
      Perm.trans (insert_perm before x (sort before xs)) (Perm.cons x (sort_perm before xs))

  pub All-insert {κ} :
      (P : A → Type κ) (before : A → A → Bool) (x : A) (ys : List A)
      → P x
      → All P ys
      → All P (insert before x ys)
  unfolding insert
  All-insert P before x [] h a = (h, tt)
  All-insert P before x (y ∷ ys) h a = elim (Bool-cases (before x y)) [
    | inl e ↦ rw e (h, a)
    | inr e ↦ rw e (a.0, All-insert P before x ys h a.1)
  ]

  pub All-sort {κ} :
      (P : A → Type κ) (before : A → A → Bool) (xs : List A) → All P xs → All P (sort before xs)
  unfolding sort
  All-sort P before [] a = tt
  All-sort P before (x ∷ xs) a =
      All-insert P before x (sort before xs) a.0 (All-sort P before xs a.1)

  -- The keys ascend.
  abbrev pub Ascends : (A → ℕ) → List A → Type 0
  Ascends key [] = Unit
  Ascends key (x ∷ xs) = All (λ y. key x ≤ key y) xs × Ascends key xs

  abbrev pub by_key : (A → ℕ) → A → A → Bool
  by_key key x y = leb (key x) (key y)

  insert-Ascends :
      (key : A → ℕ) (x : A) (ys : List A) → Ascends key ys → Ascends key (insert (by_key key) x ys)
  unfolding insert
  insert-Ascends key x [] s = (tt, tt)
  insert-Ascends key x (y ∷ ys) s = elim (Bool-cases (by_key key x y)) [
    | inl h ↦ rw h (
      (
        ground (arith, h),
        All-mono (λ z. key y ≤ key z) (λ z. key x ≤ key z) ys (λ z k. ground (arith, h, k)) s.0,
      ),
      s,
    )
    | inr h ↦ rw h (
      All-insert (λ z. key y ≤ key z) (by_key key) x ys (ground (arith, h)) s.0,
      insert-Ascends key x ys s.1,
    )
  ]

  pub sort-Ascends : (key : A → ℕ) (xs : List A) → Ascends key (sort (by_key key) xs)
  unfolding sort
  sort-Ascends key [] = tt
  sort-Ascends key (x ∷ xs) = insert-Ascends key x (sort (by_key key) xs) (sort-Ascends key xs)
