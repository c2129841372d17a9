-- ===== src/Prelude/Dict.antt =====
-- A Python dict in insertion order, for any type of keys with a Boolean equivalence (`__eq__`).
use Prim.Native.String.{String}
use mathlib.Core.Path.{◌≡◌, refl, subst}
use mathlib.Core.Logic.{inl, inr}
use mathlib.Core.Bool.{Bool, true, false, ◌&&◌}
use mathlib.Core.Option.{Option, none, some, some-injective, none-ne-some}
use mathlib.Core.List.{List, [], ◌∷◌, map}
use native.Mathlib.Omega.{arith}
use text.Mathlib.Text.{◌==◌ as str_eq}
use text.Mathlib.TextEquality.{eq_iff}
use p2p_treker.Prelude.Tests.{Bool-cases, if◌then◌else◌}
use p2p_treker.Prelude.Lists.{All, All-imp, filter}

-- Keys compare by an equivalence: two decimals such as 1.0 and 1.00 are one key.
pub record Key (K : Type 0) : Type 0 where
  pub beq : K → K → Bool
  pub beq_refl : (a : K) → beq a a ≡ true
  pub beq_symm : (a b : K) → beq a b ≡ true → beq b a ≡ true
  pub beq_trans : (a b c : K) → beq a b ≡ true → beq b c ≡ true → beq a c ≡ true

pub string_refl : (a : String) → str_eq a a ≡ true
string_refl a = ground (arith, eq_iff a a)

pub string_symm : (a b : String) → str_eq a b ≡ true → str_eq b a ≡ true
string_symm a b h = ground (arith, eq_iff a b, eq_iff b a)

pub string_trans : (a b c : String) → str_eq a b ≡ true → str_eq b c ≡ true → str_eq a c ≡ true
string_trans a b c h k = ground (arith, eq_iff a b, eq_iff b c, eq_iff a c)

instance abbrev pub string_key : Key String
string_key = record {
  beq = str_eq;
  beq_refl = string_refl;
  beq_symm = string_symm;
  beq_trans = string_trans;
}

pub pair_trans :
    {A B : Type 0} ⦃j : Key A⦄ ⦃k : Key B⦄ (a b c : A × B)
    → (j.beq a.0 b.0 && k.beq a.1 b.1) ≡ true
    → (j.beq b.0 c.0 && k.beq b.1 c.1) ≡ true
    → (j.beq a.0 c.0 && k.beq a.1 c.1) ≡ true
pair_trans ⦃j⦄ ⦃k⦄ a b c p q = ground (arith, j.beq_trans a.0 b.0 c.0, k.beq_trans a.1 b.1 c.1)

pub pair_symm :
    {A B : Type 0} ⦃j : Key A⦄ ⦃k : Key B⦄ (a b : A × B)
    → (j.beq a.0 b.0 && k.beq a.1 b.1) ≡ true
    → (j.beq b.0 a.0 && k.beq b.1 a.1) ≡ true
pair_symm ⦃j⦄ ⦃k⦄ a b p = ground (arith, j.beq_symm a.0 b.0, k.beq_symm a.1 b.1)

pub pair_refl :
    {A B : Type 0} ⦃j : Key A⦄ ⦃k : Key B⦄ (a : A × B) → (j.beq a.0 a.0 && k.beq a.1 a.1) ≡ true
pair_refl ⦃j⦄ ⦃k⦄ a = ground (arith, j.beq_refl a.0, k.beq_refl a.1)

instance abbrev pub pair_key : {A B : Type 0} ⦃j : Key A⦄ ⦃k : Key B⦄ → Key (A × B)
pair_key ⦃j⦄ ⦃k⦄ = record {
  beq = λ a b. j.beq a.0 b.0 && k.beq a.1 b.1;
  beq_refl = pair_refl;
  beq_symm = pair_symm;
  beq_trans = pair_trans;
}

abbrev pub Dict : Type 0 → Type 0 → Type 0
Dict K V = List (K × V)

module _ {K V : Type 0} ⦃e : Key K⦄ where
  -- `d.get(k)`
  abbrev pub lookup : K → Dict K V → Option V
  lookup k [] = none
  lookup k ((j, v) ∷ d) = if e.beq j k then some v else lookup k d

  -- `d.get(k, fallback)`
  abbrev pub lookup_or : K → V → Dict K V → V
  lookup_or k v d = elim (lookup k d) [ none ↦ v | some w ↦ w ]

  -- `k in d`
  abbrev pub contains : K → Dict K V → Bool
  contains k [] = false
  contains k ((j, v) ∷ d) = if e.beq j k then true else contains k d

  -- `d[k] = v`: a key that is there keeps its place and its spelling.
  abbrev pub insert : K → V → Dict K V → Dict K V
  insert k v [] = (k, v) ∷ []
  insert k v ((j, w) ∷ d) = if e.beq j k then (j, v) ∷ d else (j, w) ∷ insert k v d

  -- `d.pop(k, None)`, `del d[k]`
  abbrev pub erase : K → Dict K V → Dict K V
  erase k [] = []
  erase k ((j, w) ∷ d) = if e.beq j k then d else (j, w) ∷ erase k d

  abbrev pub values : Dict K V → List V
  values = map λ entry. entry.1

  abbrev pub keys : Dict K V → List K
  keys = map λ entry. entry.0

  -- A dict has no key twice.
  abbrev pub Distinct : Dict K V → Type 0
  Distinct [] = Unit
  Distinct ((k, v) ∷ d) = (lookup k d ≡ none) × Distinct d

  pub lookup-insert :
      (k j : K) (v : V) (d : Dict K V)
      → lookup j (insert k v d) ≡ (if e.beq k j then some v else lookup j d)
  lookup-insert k j v [] = refl
  lookup-insert k j v ((i, w) ∷ d) = ground (
    arith,
    lookup-insert k j v d,
    e.beq_trans i k j,
    e.beq_trans k i j,
    e.beq_symm i k,
    e.beq_trans i j k,
    e.beq_symm k j,
  )

  pub lookup_congr : (j k : K) (d : Dict K V) → e.beq j k ≡ true → lookup j d ≡ lookup k d
  lookup_congr j k [] h = refl
  lookup_congr j k ((i, w) ∷ d) h =
      ground (arith, lookup_congr j k d, e.beq_trans i j k, e.beq_trans i k j, e.beq_symm j k)

  pub lookup-erase :
      (k j : K) (d : Dict K V)
      → Distinct d
      → lookup j (erase k d) ≡ (if e.beq k j then none else lookup j d)
  lookup-erase k j [] h = ground arith
  lookup-erase k j ((i, w) ∷ d) h = ground (
    arith,
    lookup-erase k j d h.1,
    lookup_congr i j d,
    e.beq_trans i k j,
    e.beq_trans k i j,
    e.beq_symm i k,
    e.beq_trans i j k,
    e.beq_symm k j,
  )

  pub insert-Distinct : (k : K) (v : V) (d : Dict K V) → Distinct d → Distinct (insert k v d)
  insert-Distinct k v [] h = (refl, tt)
  insert-Distinct k v ((i, w) ∷ d) h =
      ground (arith, insert-Distinct k v d h.1, lookup-insert k i v d, e.beq_symm k i)

  pub erase-Distinct : (k : K) (d : Dict K V) → Distinct d → Distinct (erase k d)
  erase-Distinct k [] h = tt
  erase-Distinct k ((i, w) ∷ d) h = ground (arith, erase-Distinct k d h.1, lookup-erase k i d h.1)

module _ {K V : Type 0} ⦃e : Key K⦄ where
  lookup-cons_ne :
      (j k : K) (w v : V) (d : Dict K V)
      → lookup j d ≡ none
      → lookup k d ≡ some v
      → lookup k ((j, w) ∷ d) ≡ some v
  lookup-cons_ne j k w v d h q = ground (arith, lookup_congr j k d)

  -- Each entry of a dict is what its key finds.
  pub All-lookup : (d : Dict K V) → Distinct d → All (λ entry. lookup entry.0 d ≡ some entry.1) d
  All-lookup [] h = tt
  All-lookup ((j, w) ∷ d) h = (
    ground (arith, e.beq_refl j),
    All-imp d (λ entry q. lookup-cons_ne j entry.0 w entry.1 d h.0 q) (All-lookup d h.1),
  )

  pub lookup-All :
      (P : V → Type 0) (k : K) (d : Dict K V)
      → All (λ entry. P entry.1) d
      → (v : V) → lookup k d ≡ some v
      → P v
  lookup-All P k [] h v q = absurd (none-ne-some v q)
  lookup-All P k ((j, w) ∷ d) h v q = elim (Bool-cases (e.beq j k)) [
    | inl t ↦ subst P (some-injective _ _ (rw t at q)) h.0
    | inr f ↦ lookup-All P k d h.1 v (rw f at q)
  ]

  pub insert-All :
      (P : V → Type 0) (k : K) (v : V) (d : Dict K V)
      → P v
      → All (λ entry. P entry.1) d
      → All (λ entry. P entry.1) (insert k v d)
  insert-All P k v [] p h = (p, tt)
  insert-All P k v ((j, w) ∷ d) p h = elim (Bool-cases (e.beq j k)) [
    | inl t ↦ rw t (p, h.1)
    | inr f ↦ rw f (h.0, insert-All P k v d p h.1)
  ]

  -- What `d.get(k, fallback)` returns is a value of the dict or the fallback.
  pub lookup_or-All :
      (P : V → Type 0) (k : K) (fallback : V) (d : Dict K V)
      → P fallback
      → All (λ entry. P entry.1) d
      → P (lookup_or k fallback d)
  lookup_or-All P k fallback d p h = go (lookup k d) (lookup-All P k d h)
    where
      go :
          (o : Option V)
          → ((v : V) → o ≡ some v → P v)
          → P (elim o [ none ↦ fallback | some w ↦ w ])
      go none q = p
      go (some v) q = q v refl

  -- Dropping the keys that fail a test.
  pub lookup-filter :
      (p : K → Bool) (k : K) (d : Dict K V)
      → ((i j : K) → e.beq i j ≡ true → p i ≡ p j)
      → Distinct d
      → lookup k (filter (λ entry. p entry.0) d) ≡ (if p k then lookup k d else none)
  lookup-filter p k [] h d = ground arith
  lookup-filter p k ((j, w) ∷ d) h q =
      ground (arith, lookup-filter p k d h q.1, h j k, lookup_congr j k d)

  pub lookup_or-insert :
      (k j : K) (v fallback : V) (d : Dict K V)
      → lookup_or j fallback (insert k v d) ≡ (if e.beq k j then v else lookup_or j fallback d)
  lookup_or-insert k j v fallback d = ground (arith, lookup-insert k j v d)

  pub lookup_or_congr :
      (j k : K) (fallback : V) (d : Dict K V)
      → e.beq j k ≡ true
      → lookup_or j fallback d ≡ lookup_or k fallback d
  lookup_or_congr j k fallback d h = ground (arith, lookup_congr j k d)

module _ {K : Type 0} ⦃e : Key K⦄ where
  pub beq_flip : (a b : K) → e.beq a b ≡ e.beq b a
  beq_flip a b = ground (arith, e.beq_symm a b, e.beq_symm b a)

  -- Equal keys are equal to the same keys.
  pub beq_congr : (i j k : K) → e.beq j k ≡ true → e.beq i j ≡ e.beq i k
  beq_congr i j k h = ground (arith, e.beq_trans i j k, e.beq_trans i k j, e.beq_symm j k)
