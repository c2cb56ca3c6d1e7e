-- ===== src/Models/Dynamic.antt =====
-- The Python values that the program reads from YAML and JSON, or passes between collectors, and
-- the built-in functions on them. The built-ins are parameters: `str`, `float` and `int` on values,
-- and the `re` module. Each raises what Python raises.
use zabbig.Prelude.{
  zero, ◌+◌, ◌-◌, String, Bool, true, false, not, any, contains, ok, raise, type_error, Option,
  none, some, List, [], ◌∷◌, Result,
}
use zabbig.Prelude.{◌==◌, string_eq, if◌then◌else◌}
use zabbig.Prelude.Dict.{Dict}
use Prim.Native.Nat.{◌*◌, ◌^◌}
use zabbig.Prelude.Float.{ℤ, pos, negsuc, Float, finite, float_of, eq_float, zero_float}

mutual
  pub data Value : Type 0 where
    null : Value
    bool : Bool → Value
    int : ℤ → Value
    float : Float → Value
    str : String → Value
    list : Values → Value
    dict : Fields → Value

  pub data Values : Type 0 where
    nil : Values
    cons : Value → Values → Values

  pub data Fields : Type 0 where
    end : Fields
    field : String → Value → Fields → Fields

-- `d.get(k)` as an option: `none` for a missing key.
unfoldable pub find : String → Fields → Option Value
find k end = none
find k (field j v d) = let rest = find k d in if k == j then some v else rest

-- `k in d`
unfoldable pub has : String → Fields → Bool
unfolding find
has k d = elim (find k d) [ some v ↦ true | none ↦ false ]

-- `d.get(k, default)`
unfoldable pub get : String → Fields → Value → Value
unfolding find
get k d default = elim (find k d) [ some v ↦ v | none ↦ default ]

unfoldable pub items : Values → List Value
items nil = []
items (cons v vs) = v ∷ items vs

-- `if v` of Python.
unfoldable pub truthy : Value → Bool
truthy null = false
truthy (bool b) = b
truthy (int (pos zero)) = false
truthy (int _) = true
truthy (float x) = not (eq_float x zero_float)
truthy (str s) = not (s == "")
truthy (list nil) = false
truthy (list _) = true
truthy (dict end) = false
truthy (dict _) = true

-- A dict as an association list.
unfoldable pub entries_of : Fields → Dict Value
entries_of end = []
entries_of (field k v d) = (k, v) ∷ entries_of d

-- `{**d, **e}`, up to the order of the keys.
unfoldable pub merged : Fields → Fields → Fields
merged d end = d
merged d (field k v e) = field k v (merged d e)

-- `v in names` for a set of texts. A list or a dict cannot be hashed.
unfoldable pub one_of : List String → Value → Result Bool
one_of names (str s) = ok (contains names s)
one_of names (list vs) = raise type_error "unhashable type: 'list'"
one_of names (dict d) = raise type_error "unhashable type: 'dict'"
one_of names v = ok false

-- The number that a value is for `==`, which compares an int and a float exactly.
unfoldable pub number : Value → Option Float
number (bool true) = some (float_of 1)
number (bool false) = some zero_float
number (int (pos n)) = some (float_of n)
number (int (negsuc n)) = some (finite (negsuc ((n + 1) * 2 ^ 1074 - 1)))
number (float x) = some x
number v = none

same_number : Option Float → Option Float → Bool
same_number (some x) (some y) = eq_float x y
same_number a b = false

-- `v == w` of two values that can be hashed.
unfoldable pub same_value : Value → Value → Bool
unfolding same_number number
same_value (str s) (str t) = s == t
same_value null null = true
same_value v w = same_number (number v) (number w)

-- `v in seen` for a set of values. A list or a dict cannot be hashed.
unfoldable pub in_set : List Value → Value → Result Bool
in_set seen (list vs) = raise type_error "unhashable type: 'list'"
in_set seen (dict d) = raise type_error "unhashable type: 'dict'"
in_set seen v = ok (any (same_value v) seen)

-- What `m.group(1)` gives: the pattern has no group (an IndexError), or the group took no part in
-- the match (None), or the text that it matched.
pub data Group : Type 0 where
  no_such_group unmatched : Group
  text : String → Group

pub record Builtins : Type 0 where
  -- `str(v)`
  pub to_str : Value → String
  -- `float(v)`
  pub to_float : Value → Result Float
  -- `re.search(pattern, line)`: a match with its first group, or None.
  pub search : Value → String → Result (Option Group)

-- The conversions that the loaders use: `str(v)`, `int(v)`, `float(v)`, `list(v)`, which is also what
-- a `for` loop walks, `dict(v)`, and `s.upper()` and `s.lower()`.
pub record Casts : Type 0 where
  pub to_str : Value → String
  pub to_int : Value → Result ℤ
  pub to_float : Value → Result Float
  pub to_list : Value → Result (List Value)
  pub to_dict : Value → Result (Dict Value)
  pub upper : String → String
  pub lower : String → String
