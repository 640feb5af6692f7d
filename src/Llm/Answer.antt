-- ===== src/Llm/Answer.antt =====
-- The answer of a language model as a value: what the planner and the reviewer take from the JSON of
-- it. json.loads, str and int of a text are parameters of those that use them.
use pigeon_trade.Common.{
  ℕ, ◌/◌, String, Bool, true, false, not, Option, none, some, List, [], ◌∷◌, ◌==◌, eqb,
  if◌then◌else◌,
}
use pigeon_trade.Common.Except.{Except, ok, raise}
use pigeon_trade.Values.{
  nan, inf, finite, PyValue, none_value, bool, int, float, str, list, dict, datetime, other,
  PyItems, nil, cons, PyFields, end, field,
}

-- bool(v)
abbrev pub is_truthy : PyValue → Bool
is_truthy none_value = false
is_truthy (bool b) = b
is_truthy (int n) = not (eqb n 0)
is_truthy (float nan) = true
is_truthy (float inf) = true
is_truthy (float (finite n)) = not (eqb n 0)
is_truthy (str s) = not (s == "")
is_truthy (list nil) = false
is_truthy (list (cons v vs)) = true
is_truthy (dict end) = false
is_truthy (dict (field k v vs)) = true
is_truthy (datetime s) = true
is_truthy (other c) = true

unfoldable pub get_value : PyFields → String → Option PyValue
get_value end k = none
get_value (field j v vs) k = let rest = get_value vs k in if j == k then some v else rest

-- data.get(k, default)
abbrev pub value_or : PyFields → String → PyValue → PyValue
value_or vs k d = elim (get_value vs k) [ none ↦ d | some v ↦ v ]

abbrev pub else_default : Option PyValue → PyValue → PyValue
else_default none d = d
else_default (some v) d = if is_truthy v then v else d

-- data.get(k) or default
abbrev pub given_else : PyFields → String → PyValue → PyValue
given_else vs k d = else_default (get_value vs k) d

-- A value whose `get` is called.
abbrev pub fields_of : PyValue → Except PyFields
fields_of none_value = raise "AttributeError"
fields_of (bool b) = raise "AttributeError"
fields_of (int n) = raise "AttributeError"
fields_of (float x) = raise "AttributeError"
fields_of (str s) = raise "AttributeError"
fields_of (list vs) = raise "AttributeError"
fields_of (dict vs) = ok vs
fields_of (datetime s) = raise "AttributeError"
fields_of (other c) = raise "AttributeError"

-- int(v); `number` is int of a text
abbrev pub int_of : (String → Option ℕ) → PyValue → Except ℕ
int_of number none_value = raise "TypeError"
int_of number (bool b) = ok (if b then 1 else 0)
int_of number (int n) = ok n
int_of number (float nan) = raise "ValueError"
int_of number (float inf) = raise "OverflowError"
int_of number (float (finite n)) = ok (n / 1000)
int_of number (str s) = elim (number s) [ none ↦ raise "ValueError" | some n ↦ ok n ]
int_of number (list vs) = raise "TypeError"
int_of number (dict vs) = raise "TypeError"
int_of number (datetime s) = raise "TypeError"
int_of number (other c) = raise "TypeError"

unfoldable pub list_of : PyItems → List PyValue
list_of nil = []
list_of (cons v vs) = v ∷ list_of vs

unfoldable pub names_of : PyFields → List PyValue
names_of end = []
names_of (field k v vs) = str k ∷ names_of vs

-- What a loop over a value goes through; `letters` are the texts of one letter of a text.
abbrev pub items_of : (String → List PyValue) → PyValue → Except (List PyValue)
items_of letters none_value = raise "TypeError"
items_of letters (bool b) = raise "TypeError"
items_of letters (int n) = raise "TypeError"
items_of letters (float x) = raise "TypeError"
items_of letters (str s) = ok (letters s)
items_of letters (list vs) = ok (list_of vs)
items_of letters (dict vs) = ok (names_of vs)
items_of letters (datetime s) = raise "TypeError"
items_of letters (other c) = raise "TypeError"
