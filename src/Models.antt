-- ===== src/Models.antt =====
-- The enums and the quote model that every component shares (backend/app/models).
pub mod Quote
use p2p_treker.Prelude.{◌≡◌, refl, Bool, true, false, arith}
use p2p_treker.Prelude.Dict.{Key}

pub data Exchange : Type 0 where
  binance bybit okx : Exchange

pub data MarketType : Type 0 where
  spot perpetual_futures delivery_futures inverse_futures : MarketType

abbrev pub exchange_eq : Exchange → Exchange → Bool
exchange_eq binance binance = true
exchange_eq bybit bybit = true
exchange_eq okx okx = true
exchange_eq _ _ = false

abbrev pub market_eq : MarketType → MarketType → Bool
market_eq spot spot = true
market_eq perpetual_futures perpetual_futures = true
market_eq delivery_futures delivery_futures = true
market_eq inverse_futures inverse_futures = true
market_eq _ _ = false

pub exchange_eq→eq : (a b : Exchange) → exchange_eq a b ≡ true → a ≡ b
exchange_eq→eq a b h = ground arith

pub exchange_refl : (a : Exchange) → exchange_eq a a ≡ true
exchange_refl a = ground arith

pub exchange_symm : (a b : Exchange) → exchange_eq a b ≡ true → exchange_eq b a ≡ true
exchange_symm a b h = ground arith

pub exchange_trans :
    (a b c : Exchange) → exchange_eq a b ≡ true → exchange_eq b c ≡ true → exchange_eq a c ≡ true
exchange_trans a b c h k = ground arith

instance abbrev pub exchange_key : Key Exchange
exchange_key = record {
  beq = exchange_eq;
  beq_refl = exchange_refl;
  beq_symm = exchange_symm;
  beq_trans = exchange_trans;
}

pub market_eq→eq : (a b : MarketType) → market_eq a b ≡ true → a ≡ b
market_eq→eq a b h = ground arith

pub market_refl : (a : MarketType) → market_eq a a ≡ true
market_refl a = ground arith

pub market_symm : (a b : MarketType) → market_eq a b ≡ true → market_eq b a ≡ true
market_symm a b h = ground arith

pub market_trans :
    (a b c : MarketType) → market_eq a b ≡ true → market_eq b c ≡ true → market_eq a c ≡ true
market_trans a b c h k = ground arith

instance abbrev pub market_key : Key MarketType
market_key = record {
  beq = market_eq;
  beq_refl = market_refl;
  beq_symm = market_symm;
  beq_trans = market_trans;
}
