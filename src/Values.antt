-- ===== src/Values.antt =====
-- The values of the dynamic language that the program hands to its event encoder and keeps in
-- plans, results and protocol messages.
use pigeon_trade.Common.{ℕ, String, Bool}

-- What `math.isnan` and `math.isinf` tell apart; a finite float is a number of thousandths.
pub data PyFloat : Type 0 where
  nan : PyFloat
  inf : PyFloat
  finite : ℕ → PyFloat

mutual
  pub data PyValue : Type 0 where
    none_value : PyValue
    bool : Bool → PyValue
    int : ℕ → PyValue
    float : PyFloat → PyValue
    str : String → PyValue
    list : PyItems → PyValue
    dict : PyFields → PyValue
    -- a date or datetime, by its `isoformat()`
    datetime : String → PyValue
    -- any other object, by the name of its class
    other : String → PyValue

  pub data PyItems : Type 0 where
    nil : PyItems
    cons : PyValue → PyItems → PyItems

  pub data PyFields : Type 0 where
    end : PyFields
    field : String → PyValue → PyFields → PyFields
