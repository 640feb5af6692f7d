-- ===== src/Floats.antt =====
-- Python's floats, numpy's and pandas' statistics of a series and scipy's functions, as far as the
-- backtest and the validation use them: a parameter of the model.
use pigeon_trade.Common.{ℕ, Bool, List, if◌then◌else◌}

pub record Floats (F : Type 0) : Type 0 where
  pub zero_value : F
  -- A literal: the first number over the second.
  pub ratio : ℕ → ℕ → F
  pub add : F → F → F
  pub sub : F → F → F
  pub mul : F → F → F
  pub div : F → F → F
  pub abs : F → F
  pub sqrt : F → F
  pub lt : F → F → Bool
  pub le : F → F → Bool
  pub is_zero : F → Bool
  pub is_nan : F → Bool
  -- round(x, 3)
  pub round3 : F → F
  -- int(n * x), and int(ceil(x))
  pub part_of : ℕ → F → ℕ
  pub ceil : F → ℕ
  pub mean : List F → F
  -- std(ddof=1), and std(ddof=0)
  pub std : List F → F
  pub std_population : List F → F
  pub variance : List F → F
  pub skew : List F → F
  pub kurtosis : List F → F
  pub cdf : F → F
  pub ppf : F → F
  -- np.e
  pub e : F

module _ {F : Type 0} (fl : Floats F) where
  abbrev pub unit_value : F
  unit_value = fl.ratio 1 1

  -- max(a, b) and min(a, b)
  abbrev pub larger : F → F → F
  larger a b = if fl.lt a b then b else a

  abbrev pub smaller : F → F → F
  smaller a b = if fl.lt b a then b else a

  abbrev pub square : F → F
  square x = fl.mul x x
