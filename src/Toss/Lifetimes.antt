-- ===== src/Toss/Lifetimes.antt =====
-- The keys of the cache of core/toss/market.py, and how long each is kept.
use Prim.Native.String.{[], ◌∷◌, ◌++◌}
use Prim.Native.String.append
use Prim.Native.Char.{code, char}
use toss_invest_ai.Prelude.{ℕ, String, ◌≡◌, ap, sym, nat_eq, if◌then◌else◌}
use toss_invest_ai.Models.{Market}
use toss_invest_ai.Toss.Calls.{market_text}
use toss_invest_ai.Toss.Market.{price_key, candle_key, calendar_key}

abbrev first_code : String → ℕ
first_code [] = 0
first_code (c ∷ s) = code c

candle_first : (s t : String) → first_code (candle_key s t) ≡ 99
candle_first s t = λ i. first_code (append.cons (char 99 tt) "andle:" (s ++ (":" ++ t)) i)

price_first : (s : String) → first_code (price_key s) ≡ 112
price_first s = λ i. first_code (append.cons (char 112 tt) "rice:" s i)

calendar_first : (m : Market) → first_code (calendar_key m) ≡ 109
calendar_first m = λ i. first_code (append.cons (char 109 tt) "arket_open:" (market_text m) i)

-- The seconds that the value of a key lives: the keys of prices begin with p.
abbrev pub lifetime : String → ℕ
lifetime key = if nat_eq (first_code key) 112 then 10 else 60

pub price_lifetime : (s : String) → 10 ≡ lifetime (price_key s)
price_lifetime s = ap (λ n. if nat_eq n 112 then 10 else 60) (sym (price_first s))

pub candle_lifetime : (s t : String) → 60 ≡ lifetime (candle_key s t)
candle_lifetime s t = ap (λ n. if nat_eq n 112 then 10 else 60) (sym (candle_first s t))

pub calendar_lifetime : (m : Market) → 60 ≡ lifetime (calendar_key m)
calendar_lifetime m = ap (λ n. if nat_eq n 112 then 10 else 60) (sym (calendar_first m))
