-- ===== src/Network/Words.antt =====
-- network.py, texts: words that are written with spaces, and a name before a colon.
use Prim.Native.Char.{Char, code}
use mathlib.Core.Bool.{true≢false}
use native.Mathlib.Decide.{ℕ_discrete}
use zabbig.Prelude.{
  ℕ, zero, suc, length, ◌≡◌, refl, ap, ◌∙◌, String, Bool, true, false, not, List, [], ◌∷◌, All,
  ◌==◌, nat_eq, arith,
}
use zabbig.Prelude.Affix.{append, no_text, is_space, lstrip, strip, AreKept, rstrip-kept}
use zabbig.Network.{continues, attach, words, before_colon, after_colon}

-- A text with a character, and without white space.
abbrev pub IsWord : String → Type 0
IsWord w = (no_text w ≡ false) × AreKept is_space w

-- A number of spaces.
abbrev pub spaces : ℕ → String
spaces zero = ""
spaces (suc n) = append " " (spaces n)

-- Words to the end of the line, each with a space before it and as many more as `pad` says for it and for
-- the number of words behind it.
abbrev pub padded : (ℕ → String → ℕ) → List String → String
padded pad [] = "\n"
padded pad (w ∷ ws) = append " " (append (spaces (pad (length ws) w)) (append w (padded pad ws)))

space_is_space : is_space (code " ") ≡ true
unfolding is_space
space_is_space = refl

words-space : (s : String) → words (append " " s) ≡ words s
unfolding words
words-space s = rw space_is_space refl

words-letter :
    (c : Char) (s : String)
    → is_space (code c) ≡ false
    → words (String.◌∷◌ c s) ≡ attach c (continues s) (words s)
unfolding words
words-letter c s h = rw h refl

words-append :
    (w rest : String) → IsWord w → continues rest ≡ false → words (append w rest) ≡ w ∷ words rest
unfolding continues
words-append String.[] rest (filled, h) e = absurd (true≢false filled)
words-append (String.◌∷◌ c String.[]) rest (filled, (h, hs)) e =
    words-letter c rest h ∙ ap (λ (b : Bool). attach c b (words rest)) e
words-append (String.◌∷◌ c (String.◌∷◌ d s)) rest (filled, (h, (k, ks))) e =
    let more : words (append (String.◌∷◌ d s) rest) ≡ String.◌∷◌ d s ∷ words rest =
      words-append (String.◌∷◌ d s) rest (refl, (k, ks)) e in
    let t = append (String.◌∷◌ d s) rest in
    words-letter c t h
    ∙ ap (λ (b : Bool). attach c b (words t)) (ap not k)
    ∙ ap (attach c true) more

words-spaces : (n : ℕ) (s : String) → words (append (spaces n) s) ≡ words s
words-spaces zero s = refl
words-spaces (suc n) s = words-space (append (spaces n) s) ∙ words-spaces n s

padded-apart : (pad : ℕ → String → ℕ) (ws : List String) → continues (padded pad ws) ≡ false
unfolding continues is_space
padded-apart pad [] = refl
padded-apart pad (w ∷ ws) = refl

words-newline : words "\n" ≡ []
unfolding words is_space
words-newline = refl

pub words-padded :
    (pad : ℕ → String → ℕ) (ws : List String) → All IsWord ws → words (padded pad ws) ≡ ws
words-padded pad [] h = words-newline
words-padded pad (w ∷ ws) (h, hs) =
    words-space (append (spaces (pad (length ws) w)) (append w (padded pad ws)))
    ∙ words-spaces (pad (length ws) w) (append w (padded pad ws))
    ∙ words-append w (padded pad ws) h (padded-apart pad ws)
    ∙ ap (λ r. w ∷ r) (words-padded pad ws hs)

pub before_colon-append :
    (s t : String) → AreKept (λ c. c == b':') s → before_colon (append s (append ":" t)) ≡ s
unfolding before_colon
before_colon-append String.[] t h = ground arith
before_colon-append (String.◌∷◌ c s) t (h, hs) = rw (h, before_colon-append s t hs) refl

pub after_colon-append :
    (s t : String) → AreKept (λ c. c == b':') s → after_colon (append s (append ":" t)) ≡ t
unfolding after_colon
after_colon-append String.[] t h = ground arith
after_colon-append (String.◌∷◌ c s) t (h, hs) = rw (h, after_colon-append s t hs) refl

-- A word with spaces before it.
pub strip-indented : (n : ℕ) (w : String) → AreKept is_space w → strip (append (spaces n) w) ≡ w
unfolding strip lstrip
strip-indented zero String.[] h = rstrip-kept is_space "" tt
strip-indented zero (String.◌∷◌ c s) (h, hs) = rw h (rstrip-kept is_space (String.◌∷◌ c s) (h, hs))
strip-indented (suc n) w h = rw space_is_space (strip-indented n w h)

space_is_no_colon : (code " " == b':') ≡ false
unfolding nat_eq ℕ_discrete
space_is_no_colon = refl

pub indented-AreKept :
    (n : ℕ) (w : String)
    → AreKept (λ c. c == b':') w
    → AreKept (λ c. c == b':') (append (spaces n) w)
indented-AreKept zero w h = h
indented-AreKept (suc n) w h = (space_is_no_colon, indented-AreKept n w h)
