-- ===== src/PaperTrading/RateLimiter/Window.antt =====
-- The limiter against a reference that keeps the log of everything it has granted.
use mathlib.Core.Option.{some-injective}
use p2p_treker.Prelude.{
  sym, ◌∙◌, ℕ, ◌+◌, ◌/◌, ◌≤◌, ◌<◌, ◌≡◌, refl, ap, ap₂, inl, inr, Bool, true, false, some, List, [],
  ◌∷◌, arith, ltb, leb, ◌==◌, Bool-cases, Option-cases, if◌then◌else◌, All,
}
use p2p_treker.PaperTrading.RateLimiter.{RateLimiter, new_limiter, same_window, roll, spend, allow}

-- The decisions of the limiter at a sequence of clock readings.
pub decisions : RateLimiter → List ℕ → List Bool
decisions l [] = []
decisions l (t ∷ ts) = let (l', ok) = allow l t in ok ∷ decisions l' ts

-- How many of the granted readings fall into a window.
pub granted : ℕ → List ℕ → ℕ
granted w [] = 0
granted w (t ∷ log) = if t / 1000 == w then granted w log + 1 else granted w log

-- The reference grants a reading if fewer than `max` granted ones share its second.
pub log_allow : ℕ → List ℕ → ℕ → List ℕ × Bool
unfolding granted
log_allow max log t = if ltb (granted (t / 1000) log) max then (t ∷ log, true) else (log, false)

pub log_decisions : ℕ → List ℕ → List ℕ → List Bool
log_decisions max log [] = []
log_decisions max log (t ∷ ts) =
    let (log', ok) = log_allow max log t in ok ∷ log_decisions max log' ts

-- A clock that does not go back, from `t` on.
abbrev pub Nondecreasing : ℕ → List ℕ → Type 0
Nondecreasing t [] = Unit
Nondecreasing t (u ∷ us) = (t ≤ u) × Nondecreasing u us

-- The limiter has counted the log's readings of its window, and the log has none after `t`.
record Agrees (l : RateLimiter) (max : ℕ) (log : List ℕ) (t : ℕ) : Type 0 where
  limit : l.max_per_second ≡ max
  past : All (λ u. u ≤ t) log
  counted : (w : ℕ) → l.window ≡ some w → l.count ≡ granted w log
  fresh : (w : ℕ) → t / 1000 ≤ w → same_window l.window w ≡ false → granted w log ≡ 0

div_mono : (t u : ℕ) → t ≤ u → t / 1000 ≤ u / 1000
div_mono t u h = omega arith

granted_later : (w t : ℕ) (log : List ℕ) → All (λ u. u ≤ t) log → t / 1000 < w → granted w log ≡ 0
unfolding granted
granted_later w t [] h p = refl
granted_later w t (u ∷ log) h p = ground (arith, granted_later w t log h.1 p, div_mono u t h.0)

roll-window : (l : RateLimiter) (w : ℕ) → (roll l w).window ≡ some w
unfolding roll same_window
roll-window l w = elim (Option-cases l.window) [
  | inl e ↦ rw e refl
  | inr (v, e) ↦ elim (Bool-cases (v == w)) [
    | inl t ↦ rw (e, t) (ap some (ground arith))
    | inr f ↦ rw (e, f) refl
  ]
]

past_later : (t u : ℕ) (log : List ℕ) → t ≤ u → All (λ v. v ≤ t) log → All (λ v. v ≤ u) log
past_later t u log h p = All-map_imp log p
  where
    All-map_imp : (vs : List ℕ) → All (λ v. v ≤ t) vs → All (λ v. v ≤ u) vs
    All-map_imp [] q = tt
    All-map_imp (v ∷ vs) q = (omega (arith, q.0), All-map_imp vs q.1)

roll-Agrees :
    (l : RateLimiter) (max : ℕ) (log : List ℕ) (t u : ℕ)
    → t ≤ u
    → Agrees l max log t
    → Agrees (roll l (u / 1000)) max log u
unfolding roll same_window
roll-Agrees l max log t u h a = elim (Bool-cases (same_window l.window (u / 1000))) [
  | inl same ↦ rw same (record {
    limit = a.limit;
    past = past_later t u log h a.past;
    counted = a.counted;
    fresh = λ w p q. a.fresh w (omega (arith, div_mono t u h)) q;
  })
  | inr new ↦ rw new (record {
    limit = a.limit;
    past = past_later t u log h a.past;
    counted = λ w e. let none_yet = a.fresh (u / 1000) (div_mono t u h) new in cc;
    fresh = λ w p q. granted_later w u log (past_later t u log h a.past) (grind (arith, p, q));
  })
]

-- At a reading in the limiter's window both decide alike, and go on agreeing.
spend-Agrees :
    (l : RateLimiter) (max : ℕ) (log : List ℕ) (u : ℕ)
    → l.window ≡ some (u / 1000)
    → Agrees l max log u
    → ((spend l).1 ≡ (log_allow max log u).1) × Agrees (spend l).0 max (log_allow max log u).0 u
unfolding spend log_allow same_window
spend-Agrees l max log u e a =
    let same_count = a.counted (u / 1000) e in
    elim (Bool-cases (leb l.max_per_second l.count)) [
      | inl full ↦
          let closed : ltb (granted (u / 1000) log) max ≡ false = ground (arith, a.limit) in
          rw (full, closed) (refl, a)
      | inr left ↦
          let opened : ltb (granted (u / 1000) log) max ≡ true = ground (arith, a.limit) in
          rw (left, opened)
            (
              refl,
              record {
                limit = a.limit;
                past = (omega arith, a.past);
                counted = λ w q.
                    let here : u / 1000 ≡ w = some-injective _ _ (sym e ∙ q) in
                    grind (arith, a.counted w q);
                fresh = λ w p q. ground (arith, a.fresh w p q, rw e at q);
              },
            )
    ]

decisions-log :
    (max : ℕ) (l : RateLimiter) (log : List ℕ) (t : ℕ) (ts : List ℕ)
    → Agrees l max log t
    → Nondecreasing t ts
    → decisions l ts ≡ log_decisions max log ts
unfolding decisions log_decisions allow
decisions-log max l log t [] a n = refl
decisions-log max l log t (u ∷ ts) a n =
    let (same, a') =
      spend-Agrees (roll l (u / 1000)) max log u (roll-window l (u / 1000))
        (roll-Agrees l max log t u n.0 a) in
    ap₂ ◌∷◌ same
      (decisions-log max (spend (roll l (u / 1000))).0 (log_allow max log u).0 u ts a' n.1)

-- While the clock does not go back, the limiter decides as the reference does: a request is
-- granted exactly if fewer than `max` granted ones share its second.
pub decisions_reference :
    (max : ℕ) (ts : List ℕ)
    → Nondecreasing 0 ts
    → decisions (new_limiter max) ts ≡ log_decisions max [] ts
unfolding new_limiter granted same_window
decisions_reference max ts n =
    decisions-log max (new_limiter max) [] 0 ts
      (record { limit = refl; past = tt; counted = λ w e. cc; fresh = λ w p q. refl }) n
