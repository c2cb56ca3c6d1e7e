-- ===== src/Log/Plain.antt =====
-- log.py, `_resolve_result`: the strategies on values without host names, for the other collectors.
use zabbig.Prelude.{
  ◌≡◌, refl, ap, ◌∙◌, String, Bool, true, false, Option, none, some, List, [], ◌∷◌, map, ◌==◌,
  string_eq, if◌then◌else◌, Result, ok, err, raise, value_error, ◌>>=◌, arith,
}
use zabbig.Prelude.Float.{Float, lt_float}
use zabbig.Models.Dynamic.{Value, float, Builtins}
use zabbig.Log.{
  Entry, number_of, numeric, add_numeric, max_from, min_from, last_of, pick,
  resolve_result_with_host,
}

abbrev add_number : Option Float → List Float → List Float
add_number none xs = xs
add_number (some x) xs = x ∷ xs

unfoldable pub numeric_values : Builtins → List Value → Result (List Float)
numeric_values b [] = ok []
numeric_values b (v ∷ values) = do
  x ← number_of b v
  xs ← numeric_values b values
  ok (add_number x xs)

-- `max(numeric)` and `min(numeric)`
unfoldable pub max_value : Float → List Float → Float
max_value best [] = best
max_value best (x ∷ xs) = max_value (if lt_float best x then x else best) xs

unfoldable pub min_value : Float → List Float → Float
min_value best [] = best
min_value best (x ∷ xs) = min_value (if lt_float x best then x else best) xs

unfoldable pub pick_value : String → Value → List Float → Result Value
pick_value strategy last [] = ok last
pick_value strategy last (x ∷ xs) =
    if strategy == "max"
    then ok (float (max_value x xs))
    else if strategy == "min"
    then ok (float (min_value x xs))
    else raise value_error "Unknown result strategy"

-- `_resolve_result`
unfoldable pub resolve_result : Builtins → List Value → String → Result (Option Value)
resolve_result b [] strategy = ok none
resolve_result b (v ∷ values) strategy =
    if strategy == "first"
    then ok (some v)
    else if strategy == "last"
    then ok (some (last_of v values))
    else (do
      xs ← numeric_values b (v ∷ values)
      winner ← pick_value strategy (last_of v values) xs
      ok (some winner))

abbrev on_ok : {A B : Type 0} → (A → B) → Result A → Result B
on_ok f r = r >>= λ a. ok (f a)

abbrev pub values_of : List Entry → List Value
values_of = map (λ e. e.0)

abbrev numbers_of : List (Float × Option Value) → List Float
numbers_of = map (λ x. x.0)

-- The value of the winning entry, or the exception.
abbrev pub value_only : Result (Option Entry) → Result (Option Value)
value_only (ok none) = ok none
value_only (ok (some e)) = ok (some e.0)
value_only (err e) = err e

numeric_values-numeric :
    (b : Builtins) (es : List Entry)
    → numeric_values b (values_of es) ≡ on_ok numbers_of (numeric b es)
unfolding numeric_values numeric
numeric_values-numeric b [] = refl
numeric_values-numeric b ((v, h) ∷ es) =
    ap (λ r. number_of b v >>= λ x. r >>= λ xs. ok (add_number x xs)) (numeric_values-numeric b es)
    ∙ joined (number_of b v) (numeric b es)
  where
    joined :
        (x : Result (Option Float)) (r : Result (List (Float × Option Value)))
        → (x >>= λ y. on_ok numbers_of r >>= λ ys. ok (add_number y ys))
          ≡ on_ok numbers_of (x >>= λ y. r >>= λ ys. ok (add_numeric b y h ys))
    joined (ok none) (ok xs) = refl
    joined (ok (some y)) (ok xs) = refl
    joined (ok y) (err e) = refl
    joined (err e) r = refl

if_fst : (t : Bool) (x y : Float × Option Value) → (if t then x.0 else y.0) ≡ (if t then x else y).0
if_fst true x y = refl
if_fst false x y = refl

max_value-max_from :
    (best : Float × Option Value) (xs : List (Float × Option Value))
    → max_value best.0 (numbers_of xs) ≡ (max_from best xs).0
unfolding max_value max_from
max_value-max_from best [] = refl
max_value-max_from best (x ∷ xs) =
    ap (λ m. max_value m (numbers_of xs)) (if_fst (lt_float best.0 x.0) x best)
    ∙ max_value-max_from (if lt_float best.0 x.0 then x else best) xs

min_value-min_from :
    (best : Float × Option Value) (xs : List (Float × Option Value))
    → min_value best.0 (numbers_of xs) ≡ (min_from best xs).0
unfolding min_value min_from
min_value-min_from best [] = refl
min_value-min_from best (x ∷ xs) =
    ap (λ m. min_value m (numbers_of xs)) (if_fst (lt_float x.0 best.0) x best)
    ∙ min_value-min_from (if lt_float x.0 best.0 then x else best) xs

last_of-values : (e : Entry) (es : List Entry) → last_of e.0 (values_of es) ≡ (last_of e es).0
last_of-values e [] = refl
last_of-values e (x ∷ es) = last_of-values x es

pick_value-pick :
    (strategy : String) (last : Entry) (xs : List (Float × Option Value))
    → pick_value strategy last.0 (numbers_of xs)
      ≡ on_ok (λ (e : Entry). e.0) (pick strategy last xs)
unfolding pick_value pick
pick_value-pick strategy last [] = refl
pick_value-pick strategy last (x ∷ xs) =
    ground (arith, max_value-max_from x xs, min_value-min_from x xs)

some_value :
    (r : Result Entry) → on_ok some (on_ok (λ (e : Entry). e.0) r) ≡ value_only (on_ok some r)
some_value (ok e) = refl
some_value (err x) = refl

picked_value :
    (strategy : String) (last : Entry) (r : Result (List (Float × Option Value)))
    → (on_ok numbers_of r >>= λ xs. on_ok some (pick_value strategy last.0 xs))
      ≡ value_only (r >>= λ xs. on_ok some (pick strategy last xs))
picked_value strategy last (ok xs) =
    ap (on_ok some) (pick_value-pick strategy last xs) ∙ some_value (pick strategy last xs)
picked_value strategy last (err x) = refl

-- The numeric strategies.
abbrev by_number : Builtins → List Entry → String → Value → Result (Option Value)
by_number b es strategy last =
    numeric_values b (values_of es) >>= λ xs. on_ok some (pick_value strategy last xs)

by_number_lem :
    (b : Builtins) (e : Entry) (es : List Entry) (strategy : String)
    → by_number b (e ∷ es) strategy (last_of e.0 (values_of es))
      ≡ value_only (numeric b (e ∷ es) >>= λ xs. on_ok some (pick strategy (last_of e es) xs))
by_number_lem b e es strategy =
    ap (by_number b (e ∷ es) strategy) (last_of-values e es)
    ∙ ap
        (λ (r : Result (List Float)).
          r >>= λ xs. on_ok some (pick_value strategy (last_of e es).0 xs))
        (numeric_values-numeric b (e ∷ es))
    ∙ picked_value strategy (last_of e es) (numeric b (e ∷ es))

-- Without host names the strategies do the same: `_resolve_result` on the values of some entries gives
-- the value of the entry that `_resolve_result_with_host` chooses, or the same exception.
pub resolve_result-with_host :
    (b : Builtins) (entries : List Entry) (strategy : String)
    → resolve_result b (values_of entries) strategy
      ≡ value_only (resolve_result_with_host b entries strategy)
unfolding resolve_result resolve_result_with_host
resolve_result-with_host b [] strategy = refl
resolve_result-with_host b (e ∷ es) strategy = by_test (strategy == "first") (strategy == "last")
  where
    by_test :
        (first last : Bool)
        → (if first
            then ok (some e.0)
            else if last
            then ok (some (last_of e.0 (values_of es)))
            else by_number b (e ∷ es) strategy (last_of e.0 (values_of es)))
          ≡ value_only (
              if first
              then ok (some e)
              else if last
              then ok (some (last_of e es))
              else (numeric b (e ∷ es) >>= λ xs. on_ok some (pick strategy (last_of e es) xs)))
    by_test true last = refl
    by_test false true = ap (λ v. ok (some v)) (last_of-values e es)
    by_test false false = by_number_lem b e es strategy
