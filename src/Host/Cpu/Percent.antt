-- ===== src/Host/Cpu/Percent.antt =====
-- cpu.py: the jiffies between two reads of /proc/stat.
use zabbig.Prelude.{
  ℕ, ◌+◌, ◌-◌, ◌≤◌, ◌≡◌, ◌⊎◌, inl, inr, refl, ap, ◌∙◌, String, Bool-cases, Option, none, some, List,
  [], ◌∷◌, get_elem?, take, drop, leb, length, string_eq, Result, ok, raise, index_error, arith,
  same_text,
}
use zabbig.Prelude.Float.{ℤ, pos, Float, zero_float}
use zabbig.Models.Dynamic.{Value}
use zabbig.Network.{words, parse_counters}
use zabbig.Host.{diff}
use zabbig.Host.Cpu.{
  item_at, sum, iowait, jiffies, read_proc_stat_cpu, busy_percent, CpuReads, cpu_percent,
}

-- Counters that have not gone back.
pub data Grows : List ℕ → List ℕ → Type 0 where
  none_left : Grows [] []
  more : {a b : ℕ} {xs ys : List ℕ} → a ≤ b → Grows xs ys → Grows (a ∷ xs) (b ∷ ys)

-- A line of /proc/stat for all processors, with its counters.
pub record IsCpuLine (to_int : String → Result ℕ) (line : String) (values : List ℕ) : Type 0 where
  pub name : get_elem? (words line) 0 ≡ some "cpu"
  pub counters : parse_counters to_int (take 8 (drop 1 (words line))) ≡ ok values

-- The idle share of some jiffies: `k` of `n`.
abbrev pub IsShare : ℕ → ℕ → ℕ × ℕ → ℕ × ℕ → Type 0
IsShare k n (t1, i1) (t2, i2) = (t1 + n ≡ t2) × (i1 + k ≡ i2) × (k ≤ n)

sum-Grows : (xs ys : List ℕ) → Grows xs ys → sum xs ≤ sum ys
unfolding sum
sum-Grows _ _ none_left = omega arith
sum-Grows _ _ (more h g) = omega (arith, h, sum-Grows _ _ g)

jiffies-IsShare :
    (xs ys : List ℕ)
    → Grows xs ys
    → 4 ≤ length xs
    → (before after : ℕ × ℕ) × (jiffies xs ≡ ok before)
      × (jiffies ys ≡ ok after)
      × ((k : ℕ) × (n : ℕ) × IsShare k n before after)
unfolding jiffies item_at iowait sum
jiffies-IsShare (a ∷ b ∷ c ∷ d ∷ []) _
      (more {b = a'} ga (more {b = b'} gb (more {b = c'} gc (more {b = d'} gd none_left)))) l =
    (
      _,
      _,
      refl,
      refl,
      (d' - d, (a' + b' + c' + d') - (a + b + c + d), (omega arith, omega arith, omega arith)),
    )
jiffies-IsShare (a ∷ b ∷ c ∷ d ∷ e ∷ xs) _
      (more {b = a'} ga
        (more {b = b'} gb (more {b = c'} gc (more {b = d'} gd (more {b = e'} {ys} ge g)))))
      l =
    let rest = sum-Grows xs ys g in
    (
      _,
      _,
      refl,
      refl,
      (
        (d' + e') - (d + e),
        (a' + b' + c' + d' + e' + sum ys) - (a + b + c + d + e + sum xs),
        (omega (arith, rest), omega arith, omega (arith, rest)),
      ),
    )
jiffies-IsShare [] ys g l = absurd (omega (arith, l))
jiffies-IsShare (a ∷ []) ys g l = absurd (omega (arith, l))
jiffies-IsShare (a ∷ b ∷ []) ys g l = absurd (omega (arith, l))
jiffies-IsShare (a ∷ b ∷ c ∷ []) ys g l = absurd (omega (arith, l))

item_at-some {ℓ} :
    {A : Type ℓ} (xs : List A) (i : ℕ) (x : A) → get_elem? xs i ≡ some x → item_at xs i ≡ ok x
unfolding item_at
item_at-some xs i x e =
    ap
      (λ (o : Option _). elim o [
        | some y ↦ ok y
        | none ↦ raise index_error "list index out of range"
      ])
      e

read-jiffies :
    (to_int : String → Result ℕ) (line : String) (values : List ℕ)
    → IsCpuLine to_int line values
    → read_proc_stat_cpu to_int line ≡ jiffies values
unfolding read_proc_stat_cpu
read-jiffies to_int line values is_line =
    rw (item_at-some (words line) 0 "cpu" is_line.name, same_text "cpu", is_line.counters) refl

busy_percent-IsShare :
    (percent : ℤ → ℕ → Float) (k n : ℕ) (before after : ℕ × ℕ)
    → IsShare k n before after
    → ((n ≡ 0) × (busy_percent percent before after ≡ zero_float))
      ⊎ ((1 ≤ n) × (busy_percent percent before after ≡ percent (pos k) n))
unfolding busy_percent
busy_percent-IsShare percent k n (t1, i1) (t2, i2) (t, i, h) = elim (Bool-cases (leb t2 t1)) [
  | inl still ↦ inl (ground (arith, still, t), rw still refl)
  | inr busy ↦
      let idle : diff i2 i1 ≡ pos k = ground (arith, i) in
      let total : t2 - t1 ≡ n = omega (arith, t) in
      inr (ground (arith, busy, t), rw (busy, idle, total) refl)
]

-- If the two lines that are read from /proc/stat have the same number of counters, four at least, and
-- no counter goes back in between, then `_cpu_percent` returns: 0.0 if no jiffy has passed, and else
-- the percentage for `k` idle jiffies out of `n`, with `k` at most `n`. So the share of busy time is
-- between none and all.
pub cpu_percent-IsShare :
    (reads : CpuReads) (proc_root : Value) (line1 line2 : String) (xs ys : List ℕ)
    → reads.stat proc_root ≡ ok line1
    → reads.stat_later proc_root ≡ ok line2
    → IsCpuLine reads.to_int line1 xs
    → IsCpuLine reads.to_int line2 ys
    → Grows xs ys
    → 4 ≤ length xs
    → (before after : ℕ × ℕ) × (jiffies xs ≡ ok before)
      × (jiffies ys ≡ ok after)
      × ((k : ℕ) × (n : ℕ) × IsShare k n before after
          × (((n ≡ 0) × (cpu_percent reads proc_root ≡ ok zero_float))
              ⊎ ((1 ≤ n) × (cpu_percent reads proc_root ≡ ok (reads.percent (pos k) n)))))
unfolding cpu_percent
cpu_percent-IsShare reads proc_root line1 line2 xs ys r1 r2 c1 c2 g l =
    let (before, after, e1, e2, (k, n, share)) = jiffies-IsShare xs ys g l in
    let value : cpu_percent reads proc_root ≡ ok (busy_percent reads.percent before after) =
      rw
        (
          r1,
          read-jiffies reads.to_int line1 xs c1,
          e1,
          r2,
          read-jiffies reads.to_int line2 ys c2,
          e2,
        )
        refl in
    (
      before,
      after,
      e1,
      e2,
      (
        k,
        n,
        share,
        elim (busy_percent-IsShare reads.percent k n before after share) [
          | inl (z, e) ↦ inl (z, value ∙ ap ok e)
          | inr (p, e) ↦ inr (p, value ∙ ap ok e)
        ],
      ),
    )
