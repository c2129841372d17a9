-- ===== src/Spread/Engine/Pairs.antt =====
-- `permutations(xs, 2)`: how many pairs there are, and what holds of each.
use p2p_treker.Prelude.{
  ◌+◌, ◌*◌, ◌≡◌, refl, List, [], ◌∷◌, ◌++◌, map, length, All, All-imp, All-map, arith,
  length-append,
}
use p2p_treker.Spread.Engine.{pairs_from, permutations}

length-map : {A B : Type 0} (f : A → B) (xs : List A) → length (map f xs) ≡ length xs
length-map f [] = refl
length-map f (x ∷ xs) = omega (arith, length-map f xs)

module _ {A : Type 0} where
  length-pairs_from :
      (before after : List A)
      → length (pairs_from before after) + length after
        ≡ length after * (length before + length after)
  unfolding pairs_from
  length-pairs_from before [] = omega arith
  length-pairs_from before (x ∷ after) =
      let ih =
        rw (length-append before (x ∷ [])) at (length-pairs_from (before ++ (x ∷ [])) after) in
      omega (
        arith,
        ih,
        length-append (map (λ y. (x, y)) (before ++ after)) (pairs_from (before ++ (x ∷ [])) after),
        length-map {B = A × A} (λ y. (x, y)) (before ++ after),
        length-append before after,
      )

-- `permutations(xs, 2)` of n exchanges has n * n - n pairs, one for each direction.
pub length-permutations :
    {A : Type 0} (xs : List A) → length (permutations xs) + length xs ≡ length xs * length xs
unfolding permutations
length-permutations xs = omega (arith, length-pairs_from [] xs)

pub All-append :
    {A : Type 0} (P : A → Type 0) (xs ys : List A) → All P xs → All P ys → All P (xs ++ ys)
All-append P [] ys h k = k
All-append P (x ∷ xs) ys h k = (h.0, All-append P xs ys h.1 k)

-- A symmetric relation that holds between any two positions holds of every pair.
module _ {A : Type 0} (R : A → A → Type 0) (symm : (a b : A) → R a b → R b a) where
  abbrev pub Apart : List A → Type 0
  Apart [] = Unit
  Apart (x ∷ xs) = All (R x) xs × Apart xs

  across_tail :
      (x : A) (before after : List A)
      → All (λ a. All (R a) (x ∷ after)) before
      → All (λ a. R x a) before × All (λ a. All (R a) after) before
  across_tail x before after h =
      (All-imp before (λ a q. symm a x q.0) h, All-imp before (λ a q. q.1) h)

  pairs_from-All :
      (before after : List A)
      → All (λ a. All (R a) after) before
      → Apart after
      → All (λ p. R p.0 p.1) (pairs_from before after)
  unfolding pairs_from
  pairs_from-All before [] h k = tt
  pairs_from-All before (x ∷ after) h k =
      let (back, front) = across_tail x before after h in
      All-append (λ p. R p.0 p.1) (map (λ y. (x, y)) (before ++ after))
        (pairs_from (before ++ (x ∷ [])) after)
        (All-map (λ p. R p.0 p.1) (λ y. (x, y)) (before ++ after)
          (All-append (R x) before after back k.0))
        (pairs_from-All (before ++ (x ∷ [])) after
          (All-append (λ a. All (R a) after) before (x ∷ []) front (k.0, tt)) k.1)

  pub permutations-All : (xs : List A) → Apart xs → All (λ p. R p.0 p.1) (permutations xs)
  unfolding permutations
  permutations-All xs h = pairs_from-All [] xs tt h
