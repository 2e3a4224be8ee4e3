-- ===== src/Examples/Samples.antt =====
-- The parameters of the model at concrete values: a digest, an order of visit, a number type.
use mathlib.Core.List.Permᴰ
use stratum_stats.Base.{
  ℕ, ◌+◌, ◌-◌, ◌*◌, ◌/◌, ◌^◌, ◌==◌, min, max, pos, true, Bytes, List, ◌++◌, take, replicate, ltb,
  leb, Float,
}
use stratum_stats.Model.{CoinbaseOutput}
use stratum_stats.Probe.Coinbase.Accounts.{Reorders}

-- 32 bytes, as SHA-256 gives, but with the first bytes of the text
abbrev pub digest : Bytes → Bytes
digest text = take 32 (text ++ replicate 32 0)

abbrev pub in_order : List CoinbaseOutput → List CoinbaseOutput
in_order outputs = outputs

pub in_order-Reorders : Reorders in_order
in_order-Reorders outputs = Permᴰ.refl outputs

-- whole numbers in place of float64
abbrev pub naturals : Float
naturals = record {
  F = ℕ;
  of_ℕ = λ n. n;
  add = ◌+◌;
  sub = ◌-◌;
  mul = ◌*◌;
  div = ◌/◌;
  eq = ◌==◌;
  ltb = ltb;
  leb = leb;
  finite = λ n. true;
  min = min;
  max = max;
  nearest = λ n. n;
  pow10 = λ n. 10 ^ n;
  ceil = pos;
}
