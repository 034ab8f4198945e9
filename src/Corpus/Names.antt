-- ===== src/Corpus/Names.antt =====
-- fuzz/ts/gen/corpus.ts: `procName`, and the numeral in it.
use mog_jit.Prelude.{
  ℕ, zero, suc, ◌+◌, ◌*◌, ◌/◌, ◌%◌, ◌-◌, ◌<◌, ◌≤◌, ◌≡◌, refl, ap, ◌∙◌, arith, ◌&&◌, [], ◌∷◌, ◌++◌,
  some, leb, ltb, Bool-cases, inl, inr,
}
use mog_jit.Prelude.Text.{Text}
use mog_jit.Prelude.Decimal.{digits, decimal}
use mog_jit.Eval.Ops.{parse_digits, proc_index}
use mog_jit.Corpus.{proc_name}

parse_digits-snoc :
    (m k d : ℕ) (xs : Text)
    → parse_digits m xs ≡ some k
    → d < 10
    → parse_digits m (xs ++ ((b'0' + d) ∷ [])) ≡ some (k * 10 + d)
unfolding parse_digits
parse_digits-snoc m k d [] h b = ground (arith, h)
parse_digits-snoc m k d (x ∷ xs) h b = elim (Bool-cases (leb b'0' x && leb x b'9')) [
  | inl e ↦ rw e (parse_digits-snoc (m * 10 + (x - b'0')) k d xs (rw e at h) b)
  | inr e ↦ ground (arith, rw e at h)
]

read_nothing : parse_digits 0 [] ≡ some 0
unfolding parse_digits
read_nothing = refl

-- The digits of a number below the fuel spell it.
digits_lem : (fuel n : ℕ) → n < fuel → parse_digits 0 (digits fuel n) ≡ some n
unfolding digits
digits_lem zero n h = absurd (omega arith)
digits_lem (suc fuel) n h = elim (Bool-cases (ltb n 10)) [
  | inl e ↦
      let same : 0 * 10 + n ≡ n = omega arith in
      rw e (parse_digits-snoc 0 0 n [] read_nothing (ground (arith, e)) ∙ ap some same)
  | inr e ↦
      let big : 10 ≤ n = ground (arith, e) in
      let whole : n / 10 * 10 + n % 10 ≡ n = omega arith in
      rw e (
        parse_digits-snoc 0 (n / 10) (n % 10) (digits fuel (n / 10))
          (digits_lem fuel (n / 10) (omega arith)) (omega arith)
        ∙ ap some whole)
]

read_digits :
    (d : ℕ) (xs : Text) → proc_index (b'p' ∷ (xs ++ (d ∷ []))) ≡ parse_digits 0 (xs ++ (d ∷ []))
unfolding proc_index
read_digits d [] = refl
read_digits d (x ∷ xs) = refl

-- A numeral is not empty, as the pattern asks.
read_numeral :
    (fuel n : ℕ) → proc_index (b'p' ∷ digits (suc fuel) n) ≡ parse_digits 0 (digits (suc fuel) n)
unfolding digits
read_numeral fuel n = elim (Bool-cases (ltb n 10)) [
  | inl e ↦ rw e (read_digits (b'0' + n) [])
  | inr e ↦ rw e (read_digits (b'0' + n % 10) (digits fuel (n / 10)))
]

-- The name of procedure `j` is read as `j`.
pub proc_index-proc_name : (j : ℕ) → proc_index (proc_name j) ≡ some j
unfolding proc_name decimal
proc_index-proc_name j =
    let numeral : proc_index (b'p' ∷ digits (suc j) j) ≡ some j =
      read_numeral j j ∙ digits_lem (suc j) j (omega arith) in
    let one : j + 1 ≡ suc j = omega arith in rw one numeral
