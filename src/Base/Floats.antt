-- ===== src/Base/Floats.antt =====
-- Go float64 values as their bits, with the operations that the code calls as an interface.
use nawst.Base.{ℕ, Bool, ◌||◌, if◌then◌else◌}
use nawst.Base.Int.{ℤ}

abbrev pub Float : Type 0
Float = ℕ

-- `decimal m k` is the literal m * 10 ^ -k. `floor` is `int(math.Floor(x))` of a value that is not
-- negative.
pub record Floats : Type 0 where
  pub add : Float → Float → Float
  pub sub : Float → Float → Float
  pub mul : Float → Float → Float
  pub div : Float → Float → Float
  pub min : Float → Float → Float
  pub lt : Float → Float → Bool
  pub le : Float → Float → Bool
  pub is_nan : Float → Bool
  pub is_inf : Float → Bool
  pub of_int : ℤ → Float
  pub decimal : ℕ → ℕ → Float
  pub floor : Float → ℕ

module _ (fl : Floats) where
  abbrev pub literal : ℕ → Float
  literal n = fl.decimal n 0

  -- `math.IsNaN(x) || math.IsInf(x, 0)`
  abbrev pub is_odd : Float → Bool
  is_odd x = fl.is_nan x || fl.is_inf x

  -- A value that is neither positive nor a number is replaced.
  abbrev pub positive_or : Float → Float → Float
  positive_or other x = if fl.le x (literal 0) || is_odd x then other else x

  -- `clampUnit`
  abbrev pub clamp_unit : Float → Float
  clamp_unit x =
      if fl.lt x (literal 0) then literal 0 else if fl.lt (literal 1) x then literal 1 else x

  -- `clampMetric` and `clamp01`
  abbrev pub clamp_metric : Float → Float
  clamp_metric x = if is_odd x then literal 0 else clamp_unit x
