-- ===== src/Validation/Sharpe.antt =====
-- aqr/validation/deflated_sharpe.py: the annualised, the probabilistic and the deflated Sharpe ratio,
-- and the minimum track record length, on the floats of a parameter. sqrt(252) and the other
-- annualisations are an argument; the variance of the trials' ratios is that of the code without them.
pub mod Verdict
use pigeon_trade.Common.{
  ℕ, ◌-◌, max, not, String, Option, none, some, List, length, keep, ltb, eqb, ◌||◌, if◌then◌else◌,
}
use pigeon_trade.Floats.{Floats, unit_value, larger, square}

pub record Deflated (F : Type 0) : Type 0 where
  pub sharpe : F
  pub expected_max_sharpe : F
  pub deflated_sharpe : F
  pub n_trials : ℕ
  pub verdict : String

module _ {F : Type 0} (fl : Floats F) where
  -- r[~np.isnan(r)]
  abbrev pub without_nan : List F → List F
  without_nan returns = keep (λ x. not (fl.is_nan x)) returns

  -- _sharpe
  unfoldable pub sharpe_of : List F → F → F
  sharpe_of returns annualization =
      let r = without_nan returns in
      if ltb (length r) 2
      then fl.zero_value
      else if fl.is_zero (fl.std r)
      then fl.zero_value
      else fl.mul (fl.div (fl.mean r) (fl.std r)) (fl.sqrt annualization)

  -- sr_obs_periodic
  abbrev pub periodic : List F → F
  periodic r =
      if fl.lt fl.zero_value (fl.std r) then fl.div (fl.mean r) (fl.std r) else fl.zero_value

  -- 1 - gamma3 * sr + (gamma4 / 4) * sr ** 2
  abbrev pub mertens : List F → F → F
  mertens r sr =
      fl.add (fl.sub (unit_value fl) (fl.mul (fl.skew r) sr))
        (fl.mul (fl.div (fl.kurtosis r) (fl.ratio 4 1)) (square fl sr))

  unfoldable pub probabilistic_sharpe_ratio : List F → F → F → F
  probabilistic_sharpe_ratio returns sr_benchmark annualization =
      let r = without_nan returns in
      if ltb (length r) 3
      then fl.ratio 1 2
      else let benchmark = fl.div sr_benchmark (fl.sqrt annualization) in
        let sr = periodic r in
        let denom_sq = mertens r sr in
        let denom = if fl.le denom_sq fl.zero_value then fl.ratio 1 10000000000 else denom_sq in
        let sigma = fl.sqrt (fl.div denom (fl.ratio (length r - 1) 1)) in
        fl.cdf (fl.div (fl.sub sr benchmark) sigma)

  -- v
  abbrev pub trials_variance : Option (List F) → F
  trials_variance none = unit_value fl
  trials_variance (some sharpes) =
      if ltb 1 (length sharpes) then fl.variance sharpes else unit_value fl

  -- expected_max_sr of `n` trials
  abbrev pub expected_max : ℕ → F → F
  expected_max n v =
      if eqb n 1
      then fl.zero_value
      else let gamma = fl.ratio 5772156649 10000000000 in
        let first = fl.ppf (fl.sub (unit_value fl) (fl.div (unit_value fl) (fl.ratio n 1))) in
        let tail = fl.div (unit_value fl) (fl.mul (fl.ratio n 1) fl.e) in
        let second = fl.ppf (fl.sub (unit_value fl) (larger fl tail (fl.ratio 1 1000000000000))) in
        fl.mul (fl.sqrt v)
          (fl.add (fl.mul (fl.sub (unit_value fl) gamma) first) (fl.mul gamma second))

  unfoldable pub deflated_sharpe_ratio : List F → ℕ → Option (List F) → F → Deflated F
  unfolding probabilistic_sharpe_ratio sharpe_of
  deflated_sharpe_ratio returns n_trials trial_sharpes annualization =
      let r = without_nan returns in
      if ltb (length r) 3
      then record {
        sharpe = fl.zero_value;
        expected_max_sharpe = fl.zero_value;
        deflated_sharpe = fl.ratio 1 2;
        n_trials = n_trials;
        verdict = "insufficient_data";
      }
      else let n = max n_trials 1 in
        let expected = expected_max n (trials_variance trial_sharpes) in
        let dsr = probabilistic_sharpe_ratio r expected annualization in
        record {
          sharpe = sharpe_of r annualization;
          expected_max_sharpe = expected;
          deflated_sharpe = dsr;
          n_trials = n;
          verdict = if fl.lt (fl.ratio 95 100) dsr then "significant" else "not_significant";
        }

  -- `none` is -1
  unfoldable pub min_track_record_length : List F → F → F → F → Option ℕ
  min_track_record_length returns sr_target confidence annualization =
      let r = without_nan returns in
      if ltb (length r) 3 || fl.is_zero (fl.std r)
      then none
      else let sr = fl.div (fl.mean r) (fl.std r) in
        let target = fl.div sr_target (fl.sqrt annualization) in
        let numerator = mertens r sr in
        let denominator = square fl (fl.sub sr target) in
        if fl.le sr target
        then none
        else if fl.le denominator fl.zero_value
        then none
        else some (
            fl.ceil (
              fl.add (unit_value fl)
                (fl.div (fl.mul numerator (square fl (fl.ppf confidence))) denominator)))
