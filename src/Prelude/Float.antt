-- ===== src/Prelude/Float.antt =====
-- Signed integers over the native numbers, and the floating point values of Python up to their
-- order. Every finite double is an integer multiple of the smallest positive one, 2 ^ -1074, so
-- `finite n` is n times that number and comparisons are exact. Arithmetic and conversions, which
-- round, are parameters where the program uses them.
use Prim.Native.Nat.{ℕ, suc, ◌+◌, ◌*◌, ◌^◌}
use mathlib.Core.Path.{◌≡◌}
use mathlib.Core.Bool.{Bool, true, false}
use native.Mathlib.Omega.{arith}
use native.Mathlib.Decide.{ℕ_discrete}
use zabbig.Prelude.Tests.{ltb, Eq}

-- `negsuc n` is -(n + 1).
pub data ℤ : Type 0 where
  pos : ℕ → ℤ
  negsuc : ℕ → ℤ

ℤ-discrete : Discrete ℤ
ℤ-discrete = hlevel ℕ_discrete

instance pub int_eq : Eq ℤ
int_eq = record { dec = ℤ-discrete }

abbrev pub pos_part : ℤ → ℕ
pos_part (pos n) = n
pos_part (negsuc n) = 0

abbrev pub neg_part : ℤ → ℕ
neg_part (pos n) = 0
neg_part (negsuc n) = suc n

abbrev pub ltb_ℤ : ℤ → ℤ → Bool
ltb_ℤ a b = ltb (pos_part a + neg_part b) (pos_part b + neg_part a)

pub data Float : Type 0 where
  finite : ℤ → Float
  pos_inf neg_inf nan : Float

abbrev pub zero_float : Float
zero_float = finite (pos 0)

-- `a < b`, which is false at a nan.
unfoldable pub lt_float : Float → Float → Bool
lt_float (finite a) (finite b) = ltb_ℤ a b
lt_float (finite a) pos_inf = true
lt_float neg_inf (finite b) = true
lt_float neg_inf pos_inf = true
lt_float _ _ = false

-- `a == b`, which is false at a nan.
unfoldable pub eq_float : Float → Float → Bool
eq_float (finite (pos a)) (finite (pos b)) = elim (ℕ_discrete a b) [ yes _ ↦ true | no _ ↦ false ]
eq_float (finite (negsuc a)) (finite (negsuc b)) = elim (ℕ_discrete a b) [
  | yes _ ↦ true
  | no _ ↦ false
]
eq_float pos_inf pos_inf = true
eq_float neg_inf neg_inf = true
eq_float _ _ = false

-- Not a nan.
abbrev pub IsNumber : Float → Type 0
IsNumber nan = ⊥
IsNumber _ = Unit

pub lt_float_irrefl : (a : Float) → lt_float a a ≡ false
unfolding lt_float
lt_float_irrefl (finite a) = ground arith
lt_float_irrefl _ = ground arith

-- Among numbers, `not (a < b)` and `not (b < c)` give `not (a < c)`.
pub lt_float_cotrans :
    (a b c : Float)
    → IsNumber b
    → lt_float a b ≡ false
    → lt_float b c ≡ false
    → lt_float a c ≡ false
unfolding lt_float
lt_float_cotrans (finite a) (finite b) (finite c) n h k = ground arith
lt_float_cotrans _ _ _ n h k = ground arith

pub lt_float_asymm : (a b : Float) → lt_float a b ≡ true → lt_float b a ≡ false
unfolding lt_float
lt_float_asymm (finite a) (finite b) h = ground arith
lt_float_asymm _ _ h = ground arith

-- `float(n)` of a natural number that a double holds exactly.
unfoldable pub float_of : ℕ → Float
float_of n = finite (pos (n * 2 ^ 1074))
