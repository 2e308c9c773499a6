-- ===== src/Common/Sorting.antt =====
-- Array.prototype.sort with a comparison, as a stable insertion sort, and what it keeps.
use mathlib.Core.Path.{◌≡◌, refl, ap, ◌∙◌}
use mathlib.Core.Bool.{Bool}
use mathlib.Core.List.{List, [], ◌∷◌}
use mathlib.Core.Logic.{◌⊎◌, inl, inr}
use Prim.Native.Nat.{ℕ, ◌+◌}
use native.Mathlib.Omega.{arith}
use fieldstream.Common.Tests.{if◌then◌else◌, Bool-cases}
use fieldstream.Common.Lists.{All, Any, sum_by, length}

module _ {A : Type 0} (before : A → A → Bool) where
  unfoldable pub insert_by : A → List A → List A
  insert_by a [] = a ∷ []
  insert_by a (x ∷ xs) = if before a x then a ∷ x ∷ xs else x ∷ insert_by a xs

  unfoldable pub sort_by : List A → List A
  unfolding insert_by
  sort_by [] = []
  sort_by (x ∷ xs) = insert_by x (sort_by xs)

module _ {A : Type 0} (before : A → A → Bool) (P : A → Type 0) where
  pub insert_by-All : (a : A) (xs : List A) → P a → All P xs → All P (insert_by before a xs)
  unfolding insert_by
  insert_by-All a [] h hs = (h, tt)
  insert_by-All a (x ∷ xs) h hs = ground (arith, insert_by-All a xs h hs.1)

  pub sort_by-All : (xs : List A) → All P xs → All P (sort_by before xs)
  unfolding sort_by
  sort_by-All [] h = tt
  sort_by-All (x ∷ xs) h = insert_by-All x (sort_by before xs) h.0 (sort_by-All xs h.1)

  insert_by-All_inv : (a : A) (xs : List A) → All P (insert_by before a xs) → P a × All P xs
  unfolding insert_by
  insert_by-All_inv a [] h = h
  insert_by-All_inv a (x ∷ xs) h = elim (Bool-cases (before a x)) [
    | inl first ↦ (rw first at h)
    | inr later ↦
        let h' : All P (x ∷ insert_by before a xs) = (rw later at h) in
        let rest = insert_by-All_inv a xs h'.1 in (rest.0, (h'.0, rest.1))
  ]

  pub sort_by-All_inv : (xs : List A) → All P (sort_by before xs) → All P xs
  unfolding sort_by
  sort_by-All_inv [] h = tt
  sort_by-All_inv (x ∷ xs) h =
      let parts = insert_by-All_inv x (sort_by before xs) h in (parts.0, sort_by-All_inv xs parts.1)

  insert_by-Any : (a : A) (xs : List A) → P a ⊎ Any P xs → Any P (insert_by before a xs)
  unfolding insert_by
  insert_by-Any a [] h = h
  insert_by-Any a (x ∷ xs) h =
      let later : P a ⊎ Any P xs → Any P (insert_by before a xs) = insert_by-Any a xs in
      elim (Bool-cases (before a x)) [ inl first ↦ rw first h | inr last ↦ rw last (pick later h) ]
    where
      pick :
          (P a ⊎ Any P xs → Any P (insert_by before a xs))
          → P a ⊎ (P x ⊎ Any P xs)
          → P x ⊎ Any P (insert_by before a xs)
      pick later (inl h) = inr (later (inl h))
      pick later (inr (inl h)) = inl h
      pick later (inr (inr h)) = inr (later (inr h))

  pub sort_by-Any : (xs : List A) → Any P xs → Any P (sort_by before xs)
  unfolding sort_by
  sort_by-Any [] h = h
  sort_by-Any (x ∷ xs) (inl h) = insert_by-Any x (sort_by before xs) (inl h)
  sort_by-Any (x ∷ xs) (inr h) = insert_by-Any x (sort_by before xs) (inr (sort_by-Any xs h))

module _ {A : Type 0} (before : A → A → Bool) (f : A → ℕ) where
  insert_by-sum : (a : A) (xs : List A) → sum_by f (insert_by before a xs) ≡ f a + sum_by f xs
  unfolding insert_by
  insert_by-sum a [] = refl
  insert_by-sum a (x ∷ xs) = ground (arith, insert_by-sum a xs)

  pub sort_by-sum : (xs : List A) → sum_by f (sort_by before xs) ≡ sum_by f xs
  unfolding sort_by
  sort_by-sum [] = refl
  sort_by-sum (x ∷ xs) = insert_by-sum x (sort_by before xs) ∙ ap (λ n. f x + n) (sort_by-sum xs)

module _ {A : Type 0} (before : A → A → Bool) where
  pub length_by-sum : (xs : List A) → length xs ≡ sum_by (λ x. 1) xs
  length_by-sum [] = refl
  length_by-sum (x ∷ xs) = omega (arith, length_by-sum xs)
