-- ===== src/Prelude/Affix.antt =====
-- Texts as lists of characters: a prefix, and what Python strips at the two ends.
use Prim.Native.Nat.{ℕ, zero, suc}
use Prim.Native.Char.{Char, code}
use Prim.Native.String.{String}
use mathlib.Core.Path.{◌≡◌, refl, ap}
use mathlib.Core.Bool.{Bool, true, false, ◌&&◌, ◌||◌}
use mathlib.Core.List.{◌∷◌, ◌++◌}
use native.Mathlib.Omega.{arith}
use zabbig.Prelude.Tests.{◌==◌, nat_eq, leb, if◌then◌else◌}
use zabbig.Prelude.Lists.{length}
use zabbig.Prelude.Text.{codes}

abbrev pub append : String → String → String
append String.[] t = t
append (String.◌∷◌ c s) t = String.◌∷◌ c (append s t)

-- `c * n` for one character.
abbrev pub repeat_char : Char → ℕ → String
repeat_char c zero = String.[]
repeat_char c (suc n) = String.◌∷◌ c (repeat_char c n)

-- `t.startswith(s)`
unfoldable pub starts_with : String → String → Bool
starts_with String.[] t = true
starts_with (String.◌∷◌ c s) String.[] = false
starts_with (String.◌∷◌ c s) (String.◌∷◌ d t) = code c == code d && starts_with s t

-- `s[n:]`
unfoldable pub skip : ℕ → String → String
skip zero s = s
skip (suc n) String.[] = String.[]
skip (suc n) (String.◌∷◌ c s) = skip n s

abbrev pub no_text : String → Bool
no_text String.[] = true
no_text (String.◌∷◌ c s) = false

-- `s.rstrip(…)` of the characters with a property.
unfoldable pub rstrip : (ℕ → Bool) → String → String
rstrip test String.[] = String.[]
rstrip test (String.◌∷◌ c s) =
    let rest = rstrip test s in
    if no_text rest && test (code c) then String.[] else String.◌∷◌ c rest

unfoldable pub lstrip : (ℕ → Bool) → String → String
lstrip test String.[] = String.[]
lstrip test (String.◌∷◌ c s) =
    let rest = lstrip test s in if test (code c) then rest else String.◌∷◌ c s

-- The ASCII whitespace: space, and from tab to carriage return.
unfoldable pub is_space : ℕ → Bool
is_space c = leb 32 c && leb c 32 || leb 9 c && leb c 13

-- `s.strip()`
unfoldable pub strip : String → String
strip s = rstrip is_space (lstrip is_space s)

pub codes-append : (s t : String) → codes (append s t) ≡ codes s ++ codes t
codes-append String.[] t = refl
codes-append (String.◌∷◌ c s) t = ap (λ r. code c ∷ r) (codes-append s t)

pub length-codes-repeat_char : (c : Char) (n : ℕ) → length (codes (repeat_char c n)) ≡ n
length-codes-repeat_char c zero = refl
length-codes-repeat_char c (suc n) = ap suc (length-codes-repeat_char c n)

pub starts_with-append : (s t : String) → starts_with s (append s t) ≡ true
unfolding starts_with
starts_with-append String.[] t = refl
starts_with-append (String.◌∷◌ c s) t = ground (arith, starts_with-append s t)

pub skip-append : (s t : String) → skip (length (codes s)) (append s t) ≡ t
unfolding skip
skip-append String.[] t = refl
skip-append (String.◌∷◌ c s) t = skip-append s t

rstrip-repeat_char :
    (test : ℕ → Bool) (c : Char) (n : ℕ)
    → test (code c) ≡ true
    → rstrip test (repeat_char c n) ≡ String.[]
unfolding rstrip
rstrip-repeat_char test c zero h = refl
rstrip-repeat_char test c (suc n) h = rw (rstrip-repeat_char test c n h, h) refl

-- Characters at the end that are stripped leave no trace.
pub rstrip-append :
    (test : ℕ → Bool) (s : String) (c : Char) (n : ℕ)
    → test (code c) ≡ true
    → rstrip test (append s (repeat_char c n)) ≡ rstrip test s
unfolding rstrip
rstrip-append test String.[] c n h = rstrip-repeat_char test c n h
rstrip-append test (String.◌∷◌ d s) c n h = rw (rstrip-append test s c n h) refl

-- A text whose characters are all kept.
abbrev pub AreKept : (ℕ → Bool) → String → Type 0
AreKept test String.[] = Unit
AreKept test (String.◌∷◌ c s) = (test (code c) ≡ false) × AreKept test s

pub rstrip-kept : (test : ℕ → Bool) (s : String) → AreKept test s → rstrip test s ≡ s
unfolding rstrip
rstrip-kept test String.[] h = refl
rstrip-kept test (String.◌∷◌ c String.[]) (h, hs) = rw h refl
rstrip-kept test (String.◌∷◌ c (String.◌∷◌ d s)) (h, hs) =
    rw (rstrip-kept test (String.◌∷◌ d s) hs) refl

pub lstrip-kept :
    (test : ℕ → Bool) (c : Char) (s : String)
    → test (code c) ≡ false
    → lstrip test (String.◌∷◌ c s) ≡ String.◌∷◌ c s
unfolding lstrip
lstrip-kept test c s h = rw h refl
