-- ===== src/Prelude/Sorting.antt =====
-- Python's `sorted`: a stable sort by a Boolean order, here by insertion.
use mathlib.Core.Path.{◌≡◌, refl, sym, subst, ◌∙◌}
use mathlib.Core.Logic.{inl, inr}
use mathlib.Core.Bool.{Bool, true, false}
use mathlib.Core.List.{List, [], ◌∷◌, Perm, map}
use mathlib.Core.List.Perm
use p2p_treker.Prelude.Tests.{if◌then◌else◌, Bool-cases}
use p2p_treker.Prelude.Lists.{All, All-imp, All-map}

module _ {A : Type 0} (le : A → A → Bool) where
  pub insert_sorted : A → List A → List A
  insert_sorted x [] = x ∷ []
  insert_sorted x (y ∷ ys) = if le x y then x ∷ y ∷ ys else y ∷ insert_sorted x ys

  unfoldable pub sorted : List A → List A
  unfolding insert_sorted
  sorted [] = []
  sorted (x ∷ xs) = insert_sorted x (sorted xs)

  -- Each element precedes those that follow it.
  abbrev pub IsSorted : List A → Type 0
  IsSorted [] = Unit
  IsSorted (x ∷ xs) = All (λ y. le x y ≡ true) xs × IsSorted xs

  pub insert_sorted-perm : (x : A) (xs : List A) → Perm (insert_sorted x xs) (x ∷ xs)
  unfolding insert_sorted
  insert_sorted-perm x [] = Perm.refl (x ∷ [])
  insert_sorted-perm x (y ∷ ys) = elim (Bool-cases (le x y)) [
    | inl t ↦ rw t (Perm.refl (x ∷ y ∷ ys))
    | inr f ↦ rw f (Perm.trans (Perm.cons y (insert_sorted-perm x ys)) (Perm.swap x y ys))
  ]

  pub sorted-perm : (xs : List A) → Perm (sorted xs) xs
  unfolding sorted
  sorted-perm [] = Perm.refl []
  sorted-perm (x ∷ xs) =
      Perm.trans (insert_sorted-perm x (sorted xs)) (Perm.cons x (sorted-perm xs))

  module _ (P : A → Type 0) where
    pub insert_sorted-All : (x : A) (xs : List A) → P x → All P xs → All P (insert_sorted x xs)
    unfolding insert_sorted
    insert_sorted-All x [] p h = (p, tt)
    insert_sorted-All x (y ∷ ys) p h = elim (Bool-cases (le x y)) [
      | inl t ↦ rw t (p, h)
      | inr f ↦ rw f (h.0, insert_sorted-All x ys p h.1)
    ]

    pub sorted-All : (xs : List A) → All P xs → All P (sorted xs)
    unfolding sorted
    sorted-All [] h = tt
    sorted-All (x ∷ xs) h = insert_sorted-All x (sorted xs) h.0 (sorted-All xs h.1)

  module _ (total : (a b : A) → le a b ≡ false → le b a ≡ true)
      (trans : (a b c : A) → le a b ≡ true → le b c ≡ true → le a c ≡ true) where
    below-All :
        (x y : A) (ys : List A)
        → le x y ≡ true
        → All (λ z. le y z ≡ true) ys
        → All (λ z. le x z ≡ true) ys
    below-All x y [] h a = tt
    below-All x y (z ∷ zs) h a = (trans x y z h a.0, below-All x y zs h a.1)

    insert_sorted-IsSorted : (x : A) (xs : List A) → IsSorted xs → IsSorted (insert_sorted x xs)
    unfolding insert_sorted
    insert_sorted-IsSorted x [] h = (tt, tt)
    insert_sorted-IsSorted x (y ∷ ys) h = elim (Bool-cases (le x y)) [
      | inl t ↦ rw t ((t, below-All x y ys t h.0), h)
      | inr f ↦ rw f (
        insert_sorted-All (λ z. le y z ≡ true) x ys (total x y f) h.0,
        insert_sorted-IsSorted x ys h.1,
      )
    ]

    pub sorted-IsSorted : (xs : List A) → IsSorted (sorted xs)
    unfolding sorted
    sorted-IsSorted [] = tt
    sorted-IsSorted (x ∷ xs) = insert_sorted-IsSorted x (sorted xs) (sorted-IsSorted xs)

-- Python's `max` and `min`: the first element that no later one beats.
module _ {A : Type 0} (beats : A → A → Bool) where
  unfoldable pub extreme : A → List A → A
  extreme best [] = best
  extreme best (x ∷ xs) = extreme (if beats x best then x else best) xs

  pub extreme-All :
      (P : A → Type 0) (best : A) (xs : List A) → P best → All P xs → P (extreme best xs)
  unfolding extreme
  extreme-All P best [] p h = p
  extreme-All P best (x ∷ xs) p h = elim (Bool-cases (beats x best)) [
    | inl t ↦ rw t (extreme-All P x xs h.0 h.1)
    | inr f ↦ rw f (extreme-All P best xs p h.1)
  ]

  extreme-cons :
      (best x : A) (xs : List A) → beats x best ≡ true → extreme best (x ∷ xs) ≡ extreme x xs
  unfolding extreme
  extreme-cons best x xs t = rw t refl

  extreme-skip :
      (best x : A) (xs : List A) → beats x best ≡ false → extreme best (x ∷ xs) ≡ extreme best xs
  unfolding extreme
  extreme-skip best x xs f = rw f refl

  -- In a preorder `Le` whose strict part is `beats`, nothing beats the extreme.
  module _ (Le : A → A → Type 0) (le_refl : (a : A) → Le a a)
      (le_trans : (a b c : A) → Le a b → Le b c → Le a c)
      (beaten : (a b : A) → beats a b ≡ true → Le b a)
      (unbeaten : (a b : A) → beats a b ≡ false → Le a b) where
    pub le-extreme : (best : A) (xs : List A) → Le best (extreme best xs)
    unfolding extreme
    le-extreme best [] = le_refl best
    le-extreme best (x ∷ xs) = elim (Bool-cases (beats x best)) [
      | inl t ↦ rw t (le_trans best x _ (beaten x best t) (le-extreme x xs))
      | inr f ↦ rw f (le-extreme best xs)
    ]

    pub All-le-extreme : (best : A) (xs : List A) → All (λ x. Le x (extreme best xs)) xs
    All-le-extreme best [] = tt
    All-le-extreme best (x ∷ xs) = elim (Bool-cases (beats x best)) [
      | inl t ↦
          subst (λ e. Le x e × All (λ y. Le y e) xs) (sym (extreme-cons best x xs t))
            (le-extreme x xs, All-le-extreme x xs)
      | inr f ↦
          subst (λ e. Le x e × All (λ y. Le y e) xs) (sym (extreme-skip best x xs f))
            (le_trans x best _ (unbeaten x best f) (le-extreme best xs), All-le-extreme best xs)
    ]

-- A sort by a key is a sort of what the keys name.
pub IsSorted-map :
    {A B : Type 0} (le : A → A → Bool) (le' : B → B → Bool) (f : A → B) (xs : List A)
    → ((x y : A) → le x y ≡ le' (f x) (f y))
    → IsSorted le xs
    → IsSorted le' (map f xs)
IsSorted-map le le' f [] e h = tt
IsSorted-map le le' f (x ∷ xs) e h = (
  All-map (λ y. le' (f x) y ≡ true) f xs (All-imp xs (λ y q. sym (e x y) ∙ q) h.0),
  IsSorted-map le le' f xs e h.1,
)
