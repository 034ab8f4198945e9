-- ===== src/Mutate/Names.antt =====
-- mutate.ts, `fresh`: the loop over the names that are taken.
use mog_jit.Prelude.{
  ℕ, zero, suc, ◌+◌, ◌<◌, ◌≤◌, ◌≡◌, refl, sym, ap, ◌∙◌, subst, arith, true, false, List, [], ◌∷◌,
  ◌++◌, some, length, Bool-cases, inl, inr, if◌then◌else◌,
}
use mog_jit.Prelude.Decimal.{decimal}
use mog_jit.Prelude.Text.{Text, codes, text_eq, text_eq_refl, text_eq-true}
use mog_jit.Eval.Ops.{one_of, proc_index}
use mog_jit.Mutate.Machine.{Gen, numbered, first_unused, fresh}
use mog_jit.Corpus.{proc_name}
use mog_jit.Corpus.Names.{proc_index-proc_name}

-- A name is taken out of the list where it first stands.
unfoldable without : Text → List Text → List Text
without x [] = []
without x (y ∷ ys) = let rest = without x ys in if text_eq x y then ys else y ∷ rest

length-without :
    (x : Text) (ys : List Text) → one_of x ys ≡ true → suc (length (without x ys)) ≡ length ys
unfolding without one_of
length-without x [] h = cc
length-without x (y ∷ ys) h = elim (Bool-cases (text_eq x y)) [
  | inl e ↦ rw e refl
  | inr e ↦ rw e (ap suc (length-without x ys (ground (arith, h, e))))
]

one_of-without :
    (x z : Text) (ys : List Text)
    → text_eq z x ≡ false
    → one_of z ys ≡ true
    → one_of z (without x ys) ≡ true
unfolding without one_of
one_of-without x z [] d h = cc
one_of-without x z (y ∷ ys) d h = elim (Bool-cases (text_eq x y)) [
  | inl e ↦
      let same : x ≡ y = text_eq-true x y e in
      let other : text_eq z y ≡ false = subst (λ w. text_eq z w ≡ false) same d in
      rw e (ground (arith, h, other))
  | inr e ↦ elim (Bool-cases (text_eq z y)) [
    | inl k ↦ ground (arith, e, k)
    | inr k ↦ let l = one_of-without x z ys d (ground (arith, h, k)) in ground (arith, e, k, l)
  ]
]

append-cancel : (xs ys zs : Text) → xs ++ ys ≡ xs ++ zs → ys ≡ zs
append-cancel [] ys zs h = h
append-cancel (x ∷ xs) ys zs h = append-cancel xs ys zs (ground (arith, h))

-- Different numbers make different names.
numbered-injective : (prefix : Text) (m n : ℕ) → numbered prefix m ≡ numbered prefix n → m ≡ n
unfolding numbered proc_name
numbered-injective prefix m n h =
    let digits : decimal m ≡ decimal n = append-cancel prefix (decimal m) (decimal n) h in
    let read : some m ≡ some n =
      sym (proc_index-proc_name m)
      ∙ (ap (λ d. proc_index (codes "p" ++ d)) digits ∙ proc_index-proc_name n) in
    cc

numbered-differ :
    (prefix : Text) (m n : ℕ) → m < n → text_eq (numbered prefix n) (numbered prefix m) ≡ false
numbered-differ prefix m n h = elim (Bool-cases (text_eq (numbered prefix n) (numbered prefix m))) [
  | inl e ↦
      let same : n ≡ m =
        numbered-injective prefix n m (text_eq-true (numbered prefix n) (numbered prefix m) e) in
      absurd (omega arith)
  | inr e ↦ e
]

-- `left` holds the taken names with numbers from `n` on.
first_unused-untaken :
    (prefix : Text) (used left : List Text) (fuel n : ℕ)
    → length left ≤ fuel
    → ((k : ℕ)
        → n ≤ k
        → one_of (numbered prefix k) used ≡ true
        → one_of (numbered prefix k) left ≡ true)
    → one_of (numbered prefix (first_unused prefix fuel n used)) used ≡ false
unfolding first_unused
first_unused-untaken prefix used left zero n b h =
    elim (Bool-cases (one_of (numbered prefix n) used)) [
      | inl e ↦
          let k = length-without (numbered prefix n) left (h n (omega arith) e) in
          absurd (omega arith)
      | inr e ↦ e
    ]
first_unused-untaken prefix used left (suc fuel) n b h =
    elim (Bool-cases (one_of (numbered prefix n) used)) [
      | inl e ↦
          let k = length-without (numbered prefix n) left (h n (omega arith) e) in
          rw e (
            first_unused-untaken prefix used (without (numbered prefix n) left) fuel (n + 1)
              (omega arith)
              (λ j l m.
                one_of-without (numbered prefix n) (numbered prefix j) left
                  (numbered-differ prefix n j (omega arith)) (h j (omega arith) m)))
      | inr e ↦ rw e e
    ]

-- A fresh name is none of the names taken, and is one of those taken afterwards, with all that were.
pub fresh-untaken :
    (prefix : Text) (g : Gen)
    → (one_of (fresh prefix g).0 g.used ≡ false)
      × (one_of (fresh prefix g).0 (fresh prefix g).1.used ≡ true)
      × ((x : Text) → one_of x g.used ≡ true → one_of x (fresh prefix g).1.used ≡ true)
unfolding fresh one_of
fresh-untaken prefix g =
    let name = (fresh prefix g).0 in
    let same : text_eq name name ≡ true = text_eq_refl name in
    (
      first_unused-untaken prefix g.used g.used (length g.used) g.counter (omega arith)
          (λ k l m. m),
      rw same refl,
      λ x h. elim (Bool-cases (text_eq x name)) [ inl e ↦ rw e refl | inr e ↦ rw (e, h) refl ],
    )
