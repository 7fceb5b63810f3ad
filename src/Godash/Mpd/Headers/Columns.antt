-- ===== src/Godash/Mpd/Headers/Columns.antt =====
-- The lengths of one segment in godash/http/mpdParsing.go, and the columns that they are read from.
use rlnc_streaming.Base.{
  ℕ, suc, ◌+◌, ◌≡◌, refl, ap, subst, ◌∙◌, List, [], ◌∷◌, Bool, true, false, length, arith,
}
use rlnc_streaming.Run.{Run, ok, load, bind-inv, ok_inj}
use rlnc_streaming.Godash.Int.{ℤ}
use rlnc_streaming.Godash.Text.{Bytes}
use rlnc_streaming.Godash.Csv.{spaces, pad, print_int}
use rlnc_streaming.Godash.Csv.Cells.{Fits, columns_of, atoi_column}
use rlnc_streaming.Godash.Mpd.Headers.{Dictionary, append_to, rate_loop_headers, read_columns}

on_number :
    (v : ℤ × Bool) (x : ℤ) (skipped : Run Dictionary) (taken : ℤ → Run Dictionary)
    → v ≡ (x, true)
    → (elim v.1 as (λ good. Run Dictionary) [ true ↦ taken v.0 | false ↦ skipped ]) ≡ taken x
on_number v x skipped taken e = rw (ap (λ w. w.1) e) (ap (λ w. taken w.0) e)

-- The lengths `xs` of a segment were asked for one after the other.
pub data Asked (length_of : ℕ → Run ℤ) : List ℕ → Dictionary → List ℤ → Dictionary → Type 0 where
  all_asked : {d : Dictionary} → Asked length_of [] d [] d
  asked :
      {j : ℕ} {x : ℤ} {js : List ℕ} {xs : List ℤ} {d d' : Dictionary}
      → length_of j ≡ ok x
      → Asked length_of js (append_to d j x) xs d'
      → Asked length_of (j ∷ js) d (x ∷ xs) d'

module _ (length_of : ℕ → Run ℤ) where
  pub rate_loop-Asked :
      (js : List ℕ) (d d' : Dictionary) (xs : List ℤ)
      → rate_loop_headers length_of js d ≡ ok (d', xs)
      → Asked length_of js d xs d'
  unfolding rate_loop_headers
  rate_loop-Asked [] d d' xs h =
      let e = ok_inj h in subst (λ v. Asked length_of [] d v.1 v.0) e all_asked
  rate_loop-Asked (j ∷ js) d d' xs h =
      let (x, found, rest) = bind-inv (length_of j) _ (d', xs) h in
      let ((d1, ys), looped, e) =
        bind-inv (rate_loop_headers length_of js (append_to d j x)) _ (d', xs) rest in
      subst (λ v. Asked length_of (j ∷ js) d v.1 v.0) (ok_inj e)
        (asked found (rate_loop-Asked js (append_to d j x) d1 ys looped))

  pub Asked-length :
      {js : List ℕ} {d d' : Dictionary} {xs : List ℤ}
      → Asked length_of js d xs d'
      → length xs ≡ length js
  Asked-length all_asked = refl
  Asked-length (asked found rest) = ap suc (Asked-length rest)

  read_column :
      (columns : List Bytes) (at n m : ℕ) (x : ℤ) (j : ℕ) (js : List ℕ) (d : Dictionary)
      → Fits x
      → load columns at ≡ ok (spaces n (pad 8 (print_int x) (spaces m [])))
      → read_columns columns at (j ∷ js) d ≡ read_columns columns (suc at) js (append_to d j x)
  unfolding read_columns
  read_column columns at n m x j js d small here = rw here (
      on_number _ x (read_columns columns at js d)
        (λ y. read_columns columns (suc at) js (append_to d j y)) (atoi_column n x m small))

  -- The lengths are read from their columns.
  pub read-Asked :
      {js : List ℕ} {d d' : Dictionary} {xs : List ℤ} (columns : List Bytes) (at n m : ℕ)
      → ((j : ℕ) (x : ℤ) → length_of j ≡ ok x → Fits x)
      → Asked length_of js d xs d'
      → ((k : ℕ) → load columns (at + k) ≡ load (columns_of n m xs) k)
      → read_columns columns at js d ≡ ok d'
  unfolding read_columns load
  read-Asked columns at n m fits all_asked same = refl
  read-Asked {d = d} columns at n m fits (asked {j} {x} found all_asked) same =
      read_column columns at n m x j [] d (fits j x found)
        (ap (load columns) (omega arith) ∙ same 0)
  read-Asked {d = d} columns at n m fits (asked {j} {x} {js = js} found (asked found' rest)) same =
      read_column columns at n 0 x j js d (fits j x found)
        (ap (load columns) (omega arith) ∙ same 0)
      ∙ read-Asked columns (suc at) 3 m fits (asked found' rest)
          (λ k. ap (load columns) (omega arith) ∙ same (suc k))
