-- ===== src/Mutate/GraphFit.antt =====
-- corpus.ts: lemmas on `calleesOf` and `checkGraph`.
use mog_jit.Prelude.{
  ℕ, zero, suc, ◌<◌, ◌≡◌, refl, subst, arith, Bool, true, false, List, [], ◌∷◌, All, Option, none,
  some, length, get_elem?, ltb, leb, ◌==◌, if◌then◌else◌, inl, inr, Option-cases,
}
use mog_jit.Ast.{
  Expr, literal, ident, cast, assignment, conditional, logical, binary, unary, update, call,
  GenProc, GenProgram,
}
use mog_jit.Core.{Traversal, IsTraversal}
use mog_jit.Eval.Ops.{proc_index}
use mog_jit.Walk.Subs.{each_expression}
use mog_jit.Corpus.{
  no_entry, add_some, add_sorted, callee, callees_in, check_callees, callees_of, check_procs,
  check_graph,
}
use mog_jit.Mutate.Fit.{Fit}
use mog_jit.Mutate.Visited.{unscoped, each_expression-Fit}
use mog_jit.Mutate.Legal.{arities_of, CallsUp, arg_env, Mutant, LegalMutant, EachFrom}

get_elem?-lt : (xs : List ℕ) (i n : ℕ) → get_elem? xs i ≡ some n → i < length xs
get_elem?-lt [] i n h = cc
get_elem?-lt (x ∷ xs) zero n h = omega arith
get_elem?-lt (x ∷ xs) (suc i) n h = let b = get_elem?-lt xs i n h in omega arith

length-arities_of : (ps : List GenProc) → length (arities_of ps) ≡ length ps
unfolding arities_of
length-arities_of [] = refl
length-arities_of (p ∷ ps) = let h = length-arities_of ps in omega arith

module _ (arities : List ℕ) (i : ℕ) where
  abbrev Higher : ℕ → Type 0
  Higher j = (i < j) × (j < length arities)

  abbrev OptHigher : Option ℕ → Type 0
  OptHigher none = Unit
  OptHigher (some j) = Higher j

  callee-Higher : (e : Expr) → Fit (unscoped (CallsUp arities i) Unit) e → OptHigher (callee e)
  unfolding Fit CallsUp
  callee-Higher (literal v) h = tt
  callee-Higher (ident x) h = tt
  callee-Higher (cast t e) h = tt
  callee-Higher (assignment op x e) h = tt
  callee-Higher (conditional c a b) h = tt
  callee-Higher (logical op l r) h = tt
  callee-Higher (binary op l r) h = tt
  callee-Higher (unary op e) h = tt
  callee-Higher (update op pre e) h = tt
  callee-Higher (call f args) h = elim (Option-cases (proc_index f)) [
    | inl e ↦ rw e tt
    | inr (j, e) ↦ let k = rw e at h.0 in rw e (k.0, get_elem?-lt arities j _ k.1)
  ]

  add_sorted-Higher :
      (n : ℕ) (ms : List ℕ) → Higher n → All Higher ms → All Higher (add_sorted n ms)
  unfolding add_sorted
  add_sorted-Higher n [] h k = (h, tt)
  add_sorted-Higher n (m ∷ ms) h k = either (n == m) (ltb n m) (add_sorted-Higher n ms h k.1)
    where
      either :
          (s t : Bool)
          → All Higher (add_sorted n ms)
          → All Higher (if s then m ∷ ms else if t then n ∷ m ∷ ms else m ∷ add_sorted n ms)
      either true t l = k
      either false true l = (h, k)
      either false false l = (k.0, l)

  callees_in-Higher :
      (es : List Expr)
      → All (Fit (unscoped (CallsUp arities i) Unit)) es
      → All Higher (callees_in es)
  unfolding callees_in
  callees_in-Higher [] h = tt
  callees_in-Higher (e ∷ es) h = add (callee e) (callee-Higher e h.0) (callees_in-Higher es h.1)
    where
      add :
          (j : Option ℕ)
          → OptHigher j
          → All Higher (callees_in es)
          → All Higher (add_some j (callees_in es))
      add none k l = l
      add (some j) k l = add_sorted-Higher j (callees_in es) k l

  check_callees-none : (cs : List ℕ) → All Higher cs → check_callees (length arities) i cs ≡ none
  unfolding check_callees
  check_callees-none [] h = refl
  check_callees-none (c ∷ cs) h =
      let here : leb (length arities) c ≡ false = ground (arith, h.0.1) in
      let above : leb c i ≡ false = ground (arith, h.0.0) in
      rw (here, above) (check_callees-none cs h.1)

module _ {S : Type 0} (core : Traversal S) (law : IsTraversal core) where
  check_procs-none :
      (arities : List ℕ) (i : ℕ) (ps : List GenProc)
      → EachFrom (Mutant arities) i ps
      → check_procs core (length arities) i ps ≡ none
  unfolding check_procs EachFrom callees_of
  check_procs-none arities i [] h = refl
  check_procs-none arities i (p ∷ ps) h =
      rw
        (check_callees-none arities i (callees_in (each_expression core p.body)) (
          callees_in-Higher arities i _ (
            each_expression-Fit (CallsUp arities i) (false ≡ true) core law (arg_env p.args) p.body
              h.0.0)))
        (check_procs-none arities (suc i) ps h.1)

  pub check_graph-none :
      (gen : GenProgram)
      → 0 < length gen.procs
      → LegalMutant gen.procs
      → check_graph core gen ≡ none
  unfolding check_graph
  check_graph-none gen pos h = by_procs gen.procs pos h
    where
      by_procs :
          (procs : List GenProc)
          → 0 < length procs
          → LegalMutant procs
          → elim procs [
            | [] ↦ some no_entry
            | p ∷ ps ↦ check_procs core (length (p ∷ ps)) 0 (p ∷ ps)
          ]
            ≡ none
      by_procs [] pos h = absurd (omega arith)
      by_procs (p ∷ ps) pos h =
          subst (λ n. check_procs core n 0 (p ∷ ps) ≡ none) (length-arities_of (p ∷ ps))
            (check_procs-none (arities_of (p ∷ ps)) 0 (p ∷ ps) h)
