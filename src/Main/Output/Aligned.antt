-- ===== src/Main/Output/Aligned.antt =====
-- main.py, `_write_output`: the columns of the table.
use zabbig.Prelude.{
  ℕ, ◌+◌, ◌-◌, ◌≤◌, ◌≡◌, ◌↔◌, ap, ◌∙◌, String, List, [], ◌∷◌, All, All-imply, length, length-append,
  arith,
}
use zabbig.Prelude.Text.{codes}
use zabbig.Prelude.Affix.{append, repeat_char, codes-append, length-codes-repeat_char}
use zabbig.Models.{MetricResult}
use zabbig.Main.Output.{
  value_text, status_text, len, ljust, widest, Widths, widths_of, columns, row_start,
}

len-append : (s t : String) → len (append s t) ≡ len s + len t
len-append s t =
    ap (λ (xs : List ℕ). length xs) (codes-append s t) ∙ length-append (codes s) (codes t)

-- The width of a column that a text is written in: the text may be wider.
abbrev stretched : ℕ → ℕ → ℕ
stretched width n = n + (width - n)

len-ljust : (width : ℕ) (s : String) → len (ljust width s) ≡ stretched width (len s)
unfolding ljust
len-ljust width s = omega (
  arith,
  len-append s (repeat_char " " (width - len s)),
  length-codes-repeat_char " " (width - len s),
)

widest-bound :
    (field : MetricResult → String) (results : List MetricResult)
    → All (λ r. len (field r) ≤ widest field results) results
unfolding widest
widest-bound field [] = tt
widest-bound field (r ∷ results) = (
  ground arith,
  All-imply (λ q. len (field q) ≤ widest field results) _ (λ q h. ground (arith, h)) results
      (widest-bound field results),
)

len-columns :
    (w : Widths) (key value status : String)
    → len (columns w key value status)
      ≡ stretched w.col_key (len key)
        + (2 + (stretched w.col_val (len value) + (2 + (stretched w.col_sta (len status) + 2))))
unfolding columns
len-columns w key value status =
    let a = len-append (ljust w.col_sta status) "  " in
    let b = len-append "  " (append (ljust w.col_sta status) "  ") in
    let c =
      len-append (ljust w.col_val value) (append "  " (append (ljust w.col_sta status) "  ")) in
    let d =
      len-append "  "
        (append (ljust w.col_val value) (append "  " (append (ljust w.col_sta status) "  "))) in
    let e = len-append (ljust w.col_key key) (
      append "  "
        (append (ljust w.col_val value) (append "  " (append (ljust w.col_sta status) "  ")))) in
    omega (
      arith,
      a,
      b,
      c,
      d,
      e,
      len-ljust w.col_key key,
      len-ljust w.col_val value,
      len-ljust w.col_sta status,
    )

-- The column that the name of the collector starts in.
abbrev pub last_column : Widths → ℕ
last_column w = w.col_key + w.col_val + w.col_sta + 6

All-aligned :
    (w : Widths) (results : List MetricResult)
    → All (λ r. len r.key ≤ w.col_key) results
    → All (λ r. len (value_text r.value) ≤ w.col_val) results
    → All (λ r. len (status_text r.status) ≤ w.col_sta) results
    → All (λ r. len (row_start w r) ≡ last_column w) results
unfolding row_start
All-aligned w [] a b c = tt
All-aligned w (r ∷ results) (a, as') (b, bs) (c, cs) = (
  omega (arith, a, b, c, len-columns w r.key (value_text r.value) (status_text r.status)),
  All-aligned w results as' bs cs,
)

-- In the table of `--output-format table` the names of the collectors stand below each other, behind
-- the widest key, value and status. The header's last column stands there too exactly if the widest key
-- has 3 characters at least, the widest value 5 and the widest status 6: the widths are those of the rows.
pub row_start-columns :
    (results : List MetricResult)
    → (let w = widths_of results in
        All (λ r. len (row_start w r) ≡ last_column w) results
        × ((len (columns w "key" "value" "status") ≡ last_column w)
            ↔ ((3 ≤ w.col_key) × (5 ≤ w.col_val) × (6 ≤ w.col_sta))))
unfolding widths_of
row_start-columns results =
    let w = widths_of results in
    let header : len (columns w "key" "value" "status")
        ≡ stretched w.col_key 3
          + (2 + (stretched w.col_val 5 + (2 + (stretched w.col_sta 6 + 2)))) =
      len-columns w "key" "value" "status" in
    (
      All-aligned w results (widest-bound (λ r. r.key) results)
          (widest-bound (λ r. value_text r.value) results)
          (widest-bound (λ r. status_text r.status) results),
      ((λ e. ground (arith, header, e)), (λ (a, b, c). omega (arith, header, a, b, c))),
    )
