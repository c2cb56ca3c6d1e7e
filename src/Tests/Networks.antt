-- ===== src/Tests/Networks.antt =====
-- network.py on a file with two interfaces, where a number is as many strokes, and one more.
use mathlib.Core.Bool.{false≢true}
use text.Mathlib.TextEquality.{eq_iff}
use native.Mathlib.Decide.{ℕ_discrete}
use zabbig.Prelude.{
  ℕ, zero, suc, ◌-◌, ◌≡◌, ◌≢◌, refl, ap, ◌∙◌, String, List, [], ◌∷◌, map, length, nat_eq, Result,
  ok, arith,
}
use zabbig.Prelude.Affix.{repeat_char, is_space, AreKept, length-codes-repeat_char}
use zabbig.Prelude.Text.{codes}
use zabbig.Prelude.Dict.{Dict}
use zabbig.Network.{parse_net_dev}
use zabbig.Network.Printed.{Layout, printed, IsName, IsDecimal, parse_net_dev-printed}

abbrev strokes : ℕ → String
strokes n = repeat_char "1" (suc n)

abbrev count_strokes : String → Result ℕ
count_strokes s = ok (length (codes s) - 1)

stroke-AreKept : (n : ℕ) → AreKept is_space (repeat_char "1" n)
unfolding is_space
stroke-AreKept zero = tt
stroke-AreKept (suc n) = (refl, stroke-AreKept n)

strokes-IsDecimal : IsDecimal strokes count_strokes
strokes-IsDecimal = record {
  word = λ n. (refl, stroke-AreKept (suc n));
  inverse =
      λ n. ap (λ (k : ℕ). ok (k - 1)) (length-codes-repeat_char "1" (suc n)) ∙ ap ok (omega arith);
}

abbrev interfaces : Dict (List ℕ)
interfaces = ("lo", 4 ∷ 2 ∷ []) ∷ ("eth0", 9 ∷ 1 ∷ []) ∷ []

lo-IsName : IsName "lo"
unfolding is_space nat_eq ℕ_discrete
lo-IsName = record { solid = (refl, (refl, tt)); no_colon = (refl, (refl, tt)) }

eth0-IsName : IsName "eth0"
unfolding is_space nat_eq ℕ_discrete
eth0-IsName = record {
  solid = (refl, (refl, (refl, (refl, tt))));
  no_colon = (refl, (refl, (refl, (refl, tt))));
}

eth0-lo : ◌≢◌ {A = String} "eth0" "lo"
eth0-lo e = false≢true ((eq_iff "eth0" "lo").1 e)

-- `%6s: %7lu %7lu`, as the kernel writes the first columns
abbrev columns : Layout
columns = record { lead = λ name. 6 - length (codes name); pad = λ behind w. 7 - length (codes w) }

parse_net_dev-printed_example :
    parse_net_dev count_strokes ("Inter-" ∷ " face" ∷ map (printed columns strokes) interfaces)
    ≡ ok interfaces
parse_net_dev-printed_example =
    parse_net_dev-printed columns strokes count_strokes strokes-IsDecimal "Inter-" " face"
      interfaces (lo-IsName, (eth0-IsName, tt)) ((eth0-lo, tt), (tt, tt))
