-- ===== src/Mutate/Mutants.antt =====
-- mutate.ts, `mutate`, and corpus.ts's `checkGraph` of what it gives.
use mog_jit.Prelude.{
  ℕ, suc, ◌+◌, ◌<◌, ◌≡◌, refl, sym, ap, subst, arith, List, [], ◌∷◌, ◌++◌, All, All-append, none,
  length,
}
use mog_jit.Prelude.Text.{codes}
use mog_jit.Ast.{Expr, GenProc, GenProgram}
use mog_jit.Corpus.{check_graph}
use mog_jit.Core.{Traversal, IsTraversal}
use mog_jit.Mutate.Machine.{Gen}
use mog_jit.Mutate.Fit.{Fit, lowering}
use mog_jit.Mutate.Program.{harvest, all_procs, start, mutate}
use mog_jit.Mutate.Yields.{Yields, Yields-bind}
use mog_jit.Mutate.Legal.{arities_of, LegalSource, LegalGraph}
use mog_jit.Mutate.ProcsFit.{harvest-Fit, Mutants, mutate_procs-Mutants}
use mog_jit.Mutate.GraphFit.{check_graph-none}
use mog_jit.Mutate.GrowFit.{maybe_grow-Mutant}

length-arities : (ps qs : List GenProc) → arities_of ps ≡ arities_of qs → length ps ≡ length qs
unfolding arities_of
length-arities [] [] h = refl
length-arities [] (q ∷ qs) h = cc
length-arities (p ∷ ps) [] h = cc
length-arities (p ∷ ps) (q ∷ qs) h = ap suc (length-arities ps qs (ground (arith, h)))

-- Where recurseOver and mapOver go through the expressions that a node holds, and whatever the seed, the
-- rate and the foreign donors, which need only not divide nor step anything but a variable: the mutant of
-- a legal program that has an entry is legal. Every name in it is declared before it is used and where it
-- is visible; every call of a procedure targets a higher index with as many arguments as that has
-- parameters; every `return` has a value, and every body ends in one or in `trap`; a `break` stands last
-- in its case; `++` and `--` apply to variables; and neither `/` nor `%` occurs. The program itself may
-- have bare `return`s, and bodies that do not end in one.
pub mutate-LegalGraph :
    (core : Traversal Gen) (law : IsTraversal core) (gen : GenProgram) (seed : ℕ) (rate : ℕ × ℕ)
    (donors : List Expr)
    → 0 < length gen.procs
    → LegalSource gen.procs
    → All (Fit lowering) donors
    → LegalGraph (mutate core gen seed rate donors).procs
unfolding mutate
mutate-LegalGraph core law gen seed rate donors pos h d =
    let arities = arities_of gen.procs in
    let all : Yields LegalGraph (all_procs core gen rate donors) =
      Yields-bind (Mutants core law arities 0 gen.procs) LegalGraph _ _
        (mutate_procs-Mutants core law arities (harvest core gen ++ donors) rate 0 gen.procs
          (All-append (Fit lowering) (harvest core gen) donors (harvest-Fit core law gen arities h)
            d)
          (λ k n e. let same : 0 + k ≡ k = omega arith in rw same e) h)
        (λ out k.
          maybe_grow-Mutant (codes "v") out
            (subst (λ n. 0 < n) (sym (length-arities out gen.procs k.1)) pos) (rw k.1 k.0)) in
    all.answer (start core gen seed)

-- Under the conditions of mutate-LegalGraph, corpus.ts's `checkGraph` accepts the mutant: it has an entry, and every call
-- in it targets an existing procedure with a higher index.
pub check_graph-mutate :
    (core : Traversal Gen) (law : IsTraversal core) (gen : GenProgram) (seed : ℕ) (rate : ℕ × ℕ)
    (donors : List Expr)
    → 0 < length gen.procs
    → LegalSource gen.procs
    → All (Fit lowering) donors
    → check_graph core (mutate core gen seed rate donors) ≡ none
check_graph-mutate core law gen seed rate donors pos h d =
    let legal = mutate-LegalGraph core law gen seed rate donors pos h d in
    check_graph-none core law (mutate core gen seed rate donors) legal.0 legal.1
