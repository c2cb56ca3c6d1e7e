-- ===== src/Log/Resume.antt =====
-- log.py: a file that grows between two runs is read once, whatever point it was cut at.
use mathlib.Core.List.{flatten}
use mathlib.Core.Path.{subst}
use zabbig.Prelude.{
  ℕ, ◌+◌, ◌≡◌, refl, sym, ap, ◌∙◌, String, Bool, true, false, Option, List, [], ◌∷◌, ◌++◌,
  append_assoc, length, length-append, drop, ◌==◌, nat_eq, if◌then◌else◌, Result, ok, err, ◌>>=◌,
  invert, ok-injective, arith,
}
use zabbig.Models.Dynamic.{Value, Fields, Builtins}
use zabbig.Log.{Entry}
use zabbig.Log.Scan.{Bytes, push, read_lines, eval_line, scan_lines, scan}

-- The lines of a file that has grown: those that it had, and those of its partial line and the rest.
read_lines-append :
    (a b : Bytes)
    → read_lines (a ++ b) ≡ (
      (read_lines a).0 ++ (read_lines ((read_lines a).1 ++ b)).0,
      (read_lines ((read_lines a).1 ++ b)).1,
    )
unfolding read_lines push
read_lines-append [] b = refl
read_lines-append (c ∷ a) b = newline (read_lines-append a b) (c == 10) refl
  where
    pushed :
        (r : List Bytes × Bytes)
        → read_lines (a ++ b) ≡ (r.0 ++ (read_lines (r.1 ++ b)).0, (read_lines (r.1 ++ b)).1)
        → (c == 10) ≡ false
        → push c (read_lines (a ++ b))
          ≡ ((push c r).0 ++ (read_lines ((push c r).1 ++ b)).0, (read_lines ((push c r).1 ++ b)).1)
    pushed ([], partial) e f = ground arith
    pushed (line ∷ lines, partial) e f = ground arith

    newline :
        read_lines (a ++ b) ≡ (
          (read_lines a).0 ++ (read_lines ((read_lines a).1 ++ b)).0,
          (read_lines ((read_lines a).1 ++ b)).1,
        )
        → (t : Bool) → (c == 10) ≡ t
        → (if t
            then ((c ∷ []) ∷ (read_lines (a ++ b)).0, (read_lines (a ++ b)).1)
            else push c (read_lines (a ++ b)))
          ≡ (let r =
                if t
                then ((c ∷ []) ∷ (read_lines a).0, (read_lines a).1)
                else push c (read_lines a) in
              (r.0 ++ (read_lines (r.1 ++ b)).0, (read_lines (r.1 ++ b)).1))
    newline ih true e = ground arith
    newline ih false e = pushed (read_lines a) ih e

-- The lines and the partial line are the file.
flatten-read_lines : (a : Bytes) → flatten (read_lines a).0 ++ (read_lines a).1 ≡ a
unfolding read_lines push flatten
flatten-read_lines [] = refl
flatten-read_lines (c ∷ a) = newline (c == 10) (read_lines a) (flatten-read_lines a)
  where
    pushed :
        (r : List Bytes × Bytes)
        → flatten r.0 ++ r.1 ≡ a
        → flatten (push c r).0 ++ (push c r).1 ≡ c ∷ a
    pushed ([], partial) e = ap (λ l. c ∷ l) e
    pushed (line ∷ lines, partial) e = ap (λ l. c ∷ l) e

    newline :
        (t : Bool) (r : List Bytes × Bytes)
        → flatten r.0 ++ r.1 ≡ a
        → flatten (if t then ((c ∷ []) ∷ r.0, r.1) else push c r).0
            ++ (if t then ((c ∷ []) ∷ r.0, r.1) else push c r).1
          ≡ c ∷ a
    newline true r e = ap (λ l. c ∷ l) e
    newline false r e = pushed r e

drop-length : (a b : Bytes) → drop (length a) (a ++ b) ≡ b
drop-length [] b = refl
drop-length (c ∷ a) b = drop-length a b

module _ (bs : Builtins) (decode : Bytes → Result String) (match_pattern : Option Value)
    (conditions : List Fields) where
  -- What the scan of further lines adds to some entries.
  abbrev after_entries : List Entry → Result (List Entry × ℕ) → Result (List Entry × ℕ)
  after_entries es r = r >>= λ x. ok (es ++ x.0, x.1)

  after-after :
      (es fs : List Entry) (r : Result (List Entry × ℕ))
      → after_entries es (after_entries fs r) ≡ after_entries (es ++ fs) r
  after-after es fs (ok x) = ap (λ l. ok (l, x.1)) (sym (append_assoc es fs x.0))
  after-after es fs (err e) = refl

  after-nothing : (r : Result (List Entry × ℕ)) → after_entries [] r ≡ r
  after-nothing (ok x) = refl
  after-nothing (err e) = refl

  abbrev lines_from : ℕ → List Bytes → Result (List Entry × ℕ)
  lines_from = scan_lines bs decode match_pattern conditions

  scan_lines-offset :
      (ls : List Bytes) (at : ℕ) (es : List Entry) (o : ℕ)
      → lines_from at ls ≡ ok (es, o)
      → o ≡ at + length (flatten ls)
  unfolding scan_lines flatten
  scan_lines-offset [] at es o e = ground arith
  scan_lines-offset (l ∷ ls) at es o e =
      let (v, p, rest) = invert (eval_line bs decode match_pattern conditions l) _ _ e in
      let (r, h, k) = invert (lines_from (at + length l) ls) _ _ rest in
      let q = scan_lines-offset ls (at + length l) r.0 r.1 h in
      ground (arith, q, length-append l (flatten ls))

  scan_lines-append :
      (ls ms : List Bytes) (at : ℕ) (es : List Entry) (o : ℕ)
      → lines_from at ls ≡ ok (es, o)
      → lines_from at (ls ++ ms) ≡ after_entries es (lines_from o ms)
  unfolding scan_lines
  scan_lines-append [] ms at es o e =
      subst (λ (x : List Entry × ℕ). lines_from at ms ≡ after_entries x.0 (lines_from x.1 ms))
        (ok-injective _ _ e) (sym (after-nothing (lines_from at ms)))
  scan_lines-append (l ∷ ls) ms at es o e =
      let x = eval_line bs decode match_pattern conditions l in
      let (v, p, rest) = invert x _ _ e in
      let (r, h, k) = invert (lines_from (at + length l) ls) _ _ rest in
      let q = scan_lines-append ls ms (at + length l) r.0 r.1 h in
      ap
        (λ (y : Result (List Entry)).
          y >>= λ w. after_entries w (lines_from (at + length l) (ls ++ ms)))
        p
      ∙ ap (after_entries v) q
      ∙ after-after v r.0 (lines_from r.1 ms)
      ∙ ap (λ (y : List Entry × ℕ). after_entries y.0 (lines_from y.1 ms)) (ok-injective _ _ k)

  -- If a run has read a file up to an offset, then a run from that offset over the file as it has
  -- grown since gives, behind the entries of the first run, exactly what one run over the whole file
  -- gives, with the same new offset: no line is read twice and none is lost, also where the first
  -- run met a line that was still being written.
  pub scan-resumes :
      (a b : Bytes) (es : List Entry) (offset : ℕ)
      → scan bs decode match_pattern conditions 0 a ≡ ok (es, offset)
      → scan bs decode match_pattern conditions 0 (a ++ b)
        ≡ (scan bs decode match_pattern conditions offset (a ++ b) >>= λ x. ok (es ++ x.0, x.1))
  unfolding scan
  scan-resumes a b es offset e =
      let (ls, partial) = read_lines a in
      let at : offset ≡ length (flatten ls) = scan_lines-offset ls 0 es offset e ∙ omega arith in
      let grown : a ++ b ≡ flatten ls ++ (partial ++ b) =
        ap (λ l. l ++ b) (sym (flatten-read_lines a)) ∙ append_assoc (flatten ls) partial b in
      let left : drop offset (a ++ b) ≡ partial ++ b =
        ap (λ (n : ℕ). drop n (a ++ b)) at
        ∙ ap (drop (length (flatten ls))) grown
        ∙ drop-length (flatten ls) (partial ++ b) in
      ap (λ (x : List Bytes × Bytes). lines_from 0 x.0) (read_lines-append a b)
      ∙ scan_lines-append ls (read_lines (partial ++ b)).0 0 es offset e
      ∙ ap (λ l. after_entries es (lines_from offset (read_lines l).0)) (sym left)
