-- ===== src/Backtest/Groups.antt =====
-- What `groupby` makes of the rows of a run.
use p2p_treker.Prelude.{
  ◌≡◌, refl, sym, ◌∙◌, true, false, inl, inr, List, [], ◌∷◌, ◌++◌, All, Bool-cases, arith,
}
use p2p_treker.Prelude.Int.{ℤ, eqb_ℤ}
use p2p_treker.Backtest.{Tick, Groups, join_group, groupby}

-- The rows of the groups, one group after the other.
abbrev pub ungrouped : Groups → List Tick
ungrouped [] = []
ungrouped ((ts, rows) ∷ groups) = rows ++ ungrouped groups

-- Each group has its own timestamp, which the next group does not have.
abbrev pub Apart : ℤ → Groups → Type 0
Apart ts [] = Unit
Apart ts ((next, rows) ∷ groups) = eqb_ℤ ts next ≡ false

abbrev pub AreGroups : Groups → Type 0
AreGroups [] = Unit
AreGroups ((ts, rows) ∷ groups) =
    All (λ row. eqb_ℤ row.timestamp ts ≡ true) rows × Apart ts groups × AreGroups groups

eqb_ℤ_refl : (a : ℤ) → eqb_ℤ a a ≡ true
eqb_ℤ_refl a = ground arith

eqb_ℤ_trans : (r s t : ℤ) → eqb_ℤ s t ≡ true → eqb_ℤ r t ≡ eqb_ℤ r s
eqb_ℤ_trans r s t h = ground arith

retimed :
    (s t : ℤ) (rows : List Tick)
    → eqb_ℤ s t ≡ true
    → All (λ row. eqb_ℤ row.timestamp t ≡ true) rows
    → All (λ row. eqb_ℤ row.timestamp s ≡ true) rows
retimed s t [] h k = tt
retimed s t (row ∷ rows) h k = (sym (eqb_ℤ_trans row.timestamp s t h) ∙ k.0, retimed s t rows h k.1)

Apart-retimed : (s t : ℤ) (groups : Groups) → eqb_ℤ s t ≡ true → Apart t groups → Apart s groups
Apart-retimed s t [] h a = tt
Apart-retimed s t ((next, rows) ∷ groups) h a = ground (arith, eqb_ℤ_trans next s t h)

ungrouped-join_group :
    (row : Tick) (groups : Groups) → ungrouped (join_group row groups) ≡ row ∷ ungrouped groups
unfolding join_group
ungrouped-join_group row [] = refl
ungrouped-join_group row ((ts, rows) ∷ groups) = elim (Bool-cases (eqb_ℤ row.timestamp ts)) [
  | inl t ↦ rw t refl
  | inr f ↦ rw f refl
]

join_group-AreGroups :
    (row : Tick) (groups : Groups) → AreGroups groups → AreGroups (join_group row groups)
unfolding join_group
join_group-AreGroups row [] g = ((eqb_ℤ_refl row.timestamp, tt), tt, tt)
join_group-AreGroups row ((ts, rows) ∷ groups) g = elim (Bool-cases (eqb_ℤ row.timestamp ts)) [
  | inl t ↦ rw t (
    (eqb_ℤ_refl row.timestamp, retimed row.timestamp ts rows t g.0),
    Apart-retimed row.timestamp ts groups t g.1,
    g.2,
  )
  | inr f ↦ rw f ((eqb_ℤ_refl row.timestamp, tt), f, g)
]

-- `groupby` keeps every row in its place: the groups, one after the other, are the rows; the rows
-- of a group share its timestamp, and the next group has another.
pub groupby_lem : (rows : List Tick) → (ungrouped (groupby rows) ≡ rows) × AreGroups (groupby rows)
unfolding groupby
groupby_lem [] = (refl, tt)
groupby_lem (row ∷ rows) = (
  rw (ungrouped-join_group row (groupby rows), (groupby_lem rows).0) refl,
  join_group-AreGroups row (groupby rows) (groupby_lem rows).1,
)
