-- ===== src/Log/Conditions.antt =====
-- log.py, `_eval_conditions`: the first condition that matches decides.
use zabbig.Prelude.{◌≡◌, refl, String, none, some, List, [], ◌∷◌, ◌++◌, All, ok, arith}
use zabbig.Models.Dynamic.{Fields, Builtins}
use zabbig.Log.{Entry, eval_one_condition, eval_conditions}

module _ (b : Builtins) (line : String) where
  -- The condition is evaluated, and does not match.
  abbrev pub Misses : Fields → Type 0
  Misses cond = eval_one_condition b cond line ≡ ok none

  -- If every condition of a list misses, the list gives no entry; and if a condition behind them
  -- matches, its entry is the outcome, whatever conditions follow.
  pub eval_conditions_lem :
      (before after : List Fields) (cond : Fields) (entry : Entry)
      → All Misses before
      → (eval_conditions b before line ≡ ok none)
        × (eval_one_condition b cond line ≡ ok (some entry)
            → eval_conditions b (before ++ cond ∷ after) line ≡ ok (some entry))
  unfolding eval_conditions
  eval_conditions_lem [] after cond entry h = (refl, λ e. ground arith)
  eval_conditions_lem (c ∷ before) after cond entry (h, hs) =
      let (p, q) = eval_conditions_lem before after cond entry hs in
      (ground arith, λ e. ground (arith, q e))
