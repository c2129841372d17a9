-- ===== src/Symbols/RoundTrip.antt =====
-- The two directions of the symbol table are inverse to each other.
use text.Mathlib.TextEquality.{eq_iff}
use p2p_treker.Prelude.{
  ◌≡◌, refl, subst, inl, inr, some, String, [], ◌∷◌, arith, All, Bool-cases, Option-cases,
}
use mathlib.Core.Option.{some-injective}
use p2p_treker.Prelude.Dict.{Dict, lookup, string_key}
use p2p_treker.Prelude.Result.{ok}
use p2p_treker.Models.{Exchange, binance, bybit, okx, exchange_key}
use p2p_treker.Symbols.{
  Natives, natives, symbol_map, native_to_canonical, found, to_native, to_canonical,
}

-- The natives of a canonical symbol lead back to it.
abbrev Returned : String × Natives → Type 0
Returned (canonical, mapping) =
    (exchange : Exchange) (native : String)
    → lookup exchange mapping ≡ some native
    → to_canonical native exchange ≡ ok canonical

-- The entry that a lookup finds.
lookup_entry :
    (P : String × Natives → Type 0) (k : String) (d : Dict String Natives)
    → All P d
    → (v : Natives) → lookup k d ≡ some v
    → P (k, v)
lookup_entry P k [] h v q = absurd cc
lookup_entry P k ((j, w) ∷ d) h v q = elim (Bool-cases (string_key.beq j k)) [
  | inl t ↦
      let same : j ≡ k = ground (arith, eq_iff j k) in
      subst (λ (p : String × Natives). P p) (λ i. (same i, some-injective w v (rw t at q) i)) h.0
  | inr f ↦ lookup_entry P k d h.1 v (rw f at q)
]

natives-Returned :
    (canonical a b c : String)
    → to_canonical a binance ≡ ok canonical
    → to_canonical b bybit ≡ ok canonical
    → to_canonical c okx ≡ ok canonical
    → Returned (canonical, natives a b c)
unfolding natives
natives-Returned canonical a b c p q r binance native h = rw (← some-injective a native h) p
natives-Returned canonical a b c p q r bybit native h = rw (← some-injective b native h) q
natives-Returned canonical a b c p q r okx native h = rw (← some-injective c native h) r

symbol_map-Returned : All Returned symbol_map
unfolding symbol_map to_canonical native_to_canonical natives
symbol_map-Returned = (
  natives-Returned "BTC-USDT" _ _ _ refl refl refl,
  (
    natives-Returned "ETH-USDT" _ _ _ refl refl refl,
    (
      natives-Returned "SOL-USDT" _ _ _ refl refl refl,
      (
        natives-Returned "BNB-USDT" _ _ _ refl refl refl,
        (natives-Returned "XRP-USDT" _ _ _ refl refl refl, tt),
      ),
    ),
  ),
)

-- A native symbol that `to_native` returns leads `to_canonical` back to the canonical one.
pub to_canonical-to_native :
    (canonical native : String) (exchange : Exchange)
    → to_native canonical exchange ≡ ok native
    → to_canonical native exchange ≡ ok canonical
unfolding to_native found
to_canonical-to_native canonical native exchange h =
    elim (Option-cases (lookup canonical symbol_map)) [
      | inl e ↦ absurd (let h' = rw e at h in cc)
      | inr (mapping, e) ↦
          let h' = rw e at h in
          elim (Option-cases (lookup exchange mapping)) [
            | inl n ↦ absurd (let h'' = rw n at h' in cc)
            | inr (native', n) ↦
                let h'' = rw n at h' in
                let same : native' ≡ native = cc in
                lookup_entry Returned canonical symbol_map symbol_map-Returned mapping e exchange
                  native (rw (← same) n)
          ]
    ]
