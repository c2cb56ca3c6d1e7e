-- ===== src/Log/Strategies.antt =====
-- log.py, `_resolve_result_with_host`: the strategies "max" and "min" find an extreme entry.
use zabbig.Prelude.{
  ◌≡◌, ◌⊎◌, inl, inr, refl, ap, String, Bool, true, false, Option, some, List, [], ◌∷◌, All,
  string_eq, if◌then◌else◌, Result, ok, ◌>>=◌,
}
use zabbig.Prelude.Float.{
  Float, IsNumber, lt_float, lt_float_irrefl, lt_float_cotrans, lt_float_asymm,
}
use zabbig.Models.Dynamic.{Value, float, Builtins}
use zabbig.Log.{Entry, numeric, max_from, min_from, pick, last_of, resolve_result_with_host}

-- A numeric entry: its number and its host name.
abbrev pub Scored : Type 0
Scored = Float × Option Value

abbrev pub IsIn : Scored → List Scored → Type 0
IsIn m [] = ⊥
IsIn m (x ∷ xs) = (m ≡ x) ⊎ IsIn m xs

-- The entry is in the list, and no entry of the list is greater.
abbrev pub IsMax : Scored → List Scored → Type 0
IsMax m xs = IsIn m xs × All (λ (x : Scored). lt_float m.0 x.0 ≡ false) xs

-- The entry is in the list, and no entry of the list is less.
abbrev pub IsMin : Scored → List Scored → Type 0
IsMin m xs = IsIn m xs × All (λ (x : Scored). lt_float x.0 m.0 ≡ false) xs

IsIn-later : (best x m : Scored) (xs : List Scored) → IsIn m (best ∷ xs) → IsIn m (best ∷ x ∷ xs)
IsIn-later best x m xs (inl e) = inl e
IsIn-later best x m xs (inr h) = inr (inr h)

IsMax-step :
    (best x : Scored) (xs : List Scored) (t : Bool)
    → IsNumber best.0
    → IsNumber x.0
    → lt_float best.0 x.0 ≡ t
    → IsMax (max_from x xs) (x ∷ xs)
    → IsMax (max_from best xs) (best ∷ xs)
    → IsMax (max_from (if t then x else best) xs) (best ∷ x ∷ xs)
IsMax-step best x xs true n k e (member, (top, others)) h = (
  inr member,
  (
    lt_float_cotrans (max_from x xs).0 x.0 best.0 k top (lt_float_asymm best.0 x.0 e),
    (top, others),
  ),
)
IsMax-step best x xs false n k e h (member, (top, others)) = (
  IsIn-later best x (max_from best xs) xs member,
  (top, (lt_float_cotrans (max_from best xs).0 best.0 x.0 n top e, others)),
)

max_from-IsMax :
    (best : Scored) (xs : List Scored)
    → IsNumber best.0
    → All (λ (x : Scored). IsNumber x.0) xs
    → IsMax (max_from best xs) (best ∷ xs)
unfolding max_from
max_from-IsMax best [] n ns = (inl refl, (lt_float_irrefl best.0, tt))
max_from-IsMax best (x ∷ xs) n (k, ns) =
    IsMax-step best x xs (lt_float best.0 x.0) n k refl (max_from-IsMax x xs k ns)
      (max_from-IsMax best xs n ns)

IsMin-step :
    (best x : Scored) (xs : List Scored) (t : Bool)
    → IsNumber best.0
    → IsNumber x.0
    → lt_float x.0 best.0 ≡ t
    → IsMin (min_from x xs) (x ∷ xs)
    → IsMin (min_from best xs) (best ∷ xs)
    → IsMin (min_from (if t then x else best) xs) (best ∷ x ∷ xs)
IsMin-step best x xs true n k e (member, (top, others)) h = (
  inr member,
  (
    lt_float_cotrans best.0 x.0 (min_from x xs).0 k (lt_float_asymm x.0 best.0 e) top,
    (top, others),
  ),
)
IsMin-step best x xs false n k e h (member, (top, others)) = (
  IsIn-later best x (min_from best xs) xs member,
  (top, (lt_float_cotrans x.0 best.0 (min_from best xs).0 n e top, others)),
)

min_from-IsMin :
    (best : Scored) (xs : List Scored)
    → IsNumber best.0
    → All (λ (x : Scored). IsNumber x.0) xs
    → IsMin (min_from best xs) (best ∷ xs)
unfolding min_from
min_from-IsMin best [] n ns = (inl refl, (lt_float_irrefl best.0, tt))
min_from-IsMin best (x ∷ xs) n (k, ns) =
    IsMin-step best x xs (lt_float x.0 best.0) n k refl (min_from-IsMin x xs k ns)
      (min_from-IsMin best xs n ns)

-- What the strategy makes of the entries, once their numeric values are known.
abbrev picked :
    String → Value × Option Value → Result (List Scored) → Result (Option (Value × Option Value))
picked strategy last r = r >>= λ ys. pick strategy last ys >>= λ winner. ok (some winner)

-- If the numeric values among the entries are numbers, not nan, and there is one, then the strategy
-- "max" gives one of the numeric entries, with its own host name, and none of them is greater; likewise
-- for "min" and less.
pub resolve_result_with_host-extreme :
    (b : Builtins) (e : Entry) (entries : List Entry) (x : Scored) (xs : List Scored)
    → numeric b (e ∷ entries) ≡ ok (x ∷ xs)
    → All (λ (y : Scored). IsNumber y.0) (x ∷ xs)
    → ((m : Scored) × (resolve_result_with_host b (e ∷ entries) "max" ≡ ok (some (float m.0, m.1)))
        × IsMax m (x ∷ xs))
      × ((m : Scored) × (resolve_result_with_host b (e ∷ entries) "min"
            ≡ ok (some (float m.0, m.1)))
          × IsMin m (x ∷ xs))
unfolding resolve_result_with_host pick string_eq
resolve_result_with_host-extreme b e entries x xs p (n, ns) = (
  (max_from x xs, ap (picked "max" (last_of e entries)) p, max_from-IsMax x xs n ns),
  (min_from x xs, ap (picked "min" (last_of e entries)) p, min_from-IsMin x xs n ns),
)
