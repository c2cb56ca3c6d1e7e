-- ===== src/Prelude/Text.antt =====
-- Text as code points, decimal digits, and Python's `int` and `zfill` on them.
use Prim.Native.Nat.{ℕ, zero, suc, ◌+◌, ◌-◌, ◌*◌}
use Prim.Native.Char.{code}
use Prim.Native.String.{String}
use mathlib.Core.Bool.{Bool, false, ◌&&◌}
use mathlib.Core.List.{List, [], ◌∷◌}
use mathlib.Core.Option.{Option, none, some}
use zabbig.Prelude.Tests.{leb, if◌then◌else◌}

-- `String` has its own `[]` and `∷`.
abbrev pub codes : String → List ℕ
codes String.[] = []
codes (String.◌∷◌ c s) = code c ∷ codes s

unfoldable pub is_digit : ℕ → Bool
is_digit c = leb b'0' c && leb c b'9'

-- `s.isdigit()`, for ASCII text.
unfoldable pub is_digits : List ℕ → Bool
unfolding is_digit
is_digits [] = false
is_digits (c ∷ []) = is_digit c
is_digits (c ∷ d ∷ s) = let rest = is_digits (d ∷ s) in is_digit c && rest

unfoldable pub int_from : ℕ → List ℕ → ℕ
int_from acc [] = acc
int_from acc (c ∷ s) = int_from (acc * 10 + (c - b'0')) s

-- `int(s)` of plain ASCII digits; `none` is a ValueError.
unfoldable pub int_of : List ℕ → Option ℕ
unfolding is_digits int_from
int_of s = if is_digits s then some (int_from 0 s) else none

unfoldable pub pad : ℕ → List ℕ → List ℕ
pad zero s = s
pad (suc n) s = b'0' ∷ pad n s
