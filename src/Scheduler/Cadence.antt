-- ===== src/Scheduler/Cadence.antt =====
-- The runs of a day on which a metric with a run_frequency is collected.
use mathlib.Core.Bool.{false≢true}
use native.Mathlib.Decide.{dec_lt}
use text.Mathlib.TextEquality.{eq_iff}
use native.Mathlib.Nat.{div-add-mod, mul-mod_left}
use zabbig.Prelude.{
  ℕ, suc, ◌+◌, ◌-◌, ◌*◌, ◌/◌, ◌%◌, ◌≤◌, ◌<◌, ◌≡◌, ◌≢◌, ◌↔◌, ◌⊎◌, inl, inr, refl, ap, sym, ◌∙◌,
  String, Option, none, some, arith, nat_eq,
}
use zabbig.Prelude.Float.{pos, negsuc}
use zabbig.Models.{Frequency, every, word}
use zabbig.Scheduler.{execute, cadence}

-- Run `n` is one of 1, 1 + freq, 1 + 2 * freq, …
abbrev pub IsNth : ℕ → ℕ → Type 0
IsNth freq n = (q : ℕ) × (n ≡ 1 + q * freq)

mod-zero→IsNth : (f n : ℕ) → 1 < f → 1 ≤ n → (n + f - 1) % f ≡ 0 → IsNth f n
mod-zero→IsNth f n hf hn h = ((n - 1) / f, grind (arith, div-add-mod (n - 1) f))

IsNth→mod-zero : (f n : ℕ) → 1 < f → IsNth f n → (n + f - 1) % f ≡ 0
IsNth→mod-zero f n hf (q, e) =
    let shifted : n + f - 1 ≡ suc q * f = omega (arith, e) in
    ap (λ (t : ℕ). t % f) shifted ∙ mul-mod_left (suc q) f

-- What a frequency asks of the run counter, in words of the documentation.
abbrev pub IsDue : Option Frequency → ℕ → Type 0
IsDue none n = Unit
IsDue (some (word w)) n =
    (w ≡ "even") × (n % 2 ≡ 0) ⊎ (w ≡ "odd") × (n % 2 ≡ 1) ⊎ (w ≢ "even") × (w ≢ "odd")
IsDue (some (every (pos f))) n = (f ≤ 1) ⊎ IsNth f n
IsDue (some (every (negsuc _))) n = Unit

cadence-every :
    (f n : ℕ) → 1 ≤ n → (cadence (some (every (pos f))) n ≡ execute) ↔ ((f ≤ 1) ⊎ IsNth f n)
unfolding cadence
cadence-every f n hn = elim (dec_lt 1 f) [
  | no small ↦ (λ e. inl (omega arith), λ h. ground arith)
  | yes large ↦ (
    (λ e. inr (mod-zero→IsNth f n large hn (ground arith))),
    (λ h. elim h [
      | inl small ↦ absurd (omega arith)
      | inr nth ↦ ground (arith, IsNth→mod-zero f n large nth)
    ]),
  )
]

even-ne-odd : (w : String) → w ≡ "even" → w ≢ "odd"
even-ne-odd w p q = false≢true ((eq_iff "even" "odd").1 (sym p ∙ q))

cadence-word :
    (w : String) (n : ℕ) → (cadence (some (word w)) n ≡ execute) ↔ IsDue (some (word w)) n
unfolding cadence
cadence-word w n = (λ e. ground arith, λ h. ground (arith, even-ne-odd w))

-- `cadence` lets a metric run on exactly the runs that its frequency asks for.
pub cadence_iff :
    (freq : Option Frequency) (n : ℕ) → 1 ≤ n → (cadence freq n ≡ execute) ↔ IsDue freq n
unfolding cadence
cadence_iff (some (every (pos f))) n h = cadence-every f n h
cadence_iff (some (every (negsuc f))) n h = (λ _. tt, λ _. refl)
cadence_iff (some (word w)) n h = cadence-word w n
cadence_iff none n h = (λ _. tt, λ _. refl)
