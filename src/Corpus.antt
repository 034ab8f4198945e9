-- ===== src/Corpus.antt =====
-- fuzz/ts/gen/corpus.ts: the procedure graph, whose edges are the calls in the trees.
pub mod Names
pub mod Check
mod Tests
use mog_jit.Prelude.{
  ℕ, zero, suc, Bool, List, [], ◌∷◌, ◌++◌, Option, none, some, length, ltb, leb, ◌==◌,
  if◌then◌else◌,
}
use mog_jit.Prelude.Text.{Text, codes}
use mog_jit.Prelude.Decimal.{decimal}
use mog_jit.Ast.{Expr, call, Stmts, GenProc, GenProgram}
use mog_jit.Core.{Traversal}
use mog_jit.Eval.Ops.{proc_index}
use mog_jit.Walk.Subs.{each_expression}

unfoldable pub proc_name : ℕ → Text
proc_name index = codes "p" ++ decimal index

-- A set of numbers as its sorted list.
unfoldable pub add_sorted : ℕ → List ℕ → List ℕ
add_sorted n [] = n ∷ []
add_sorted n (m ∷ ms) =
    let rest = add_sorted n ms in
    if n == m then m ∷ ms else if ltb n m then n ∷ m ∷ ms else m ∷ rest

abbrev pub add_some : Option ℕ → List ℕ → List ℕ
add_some none found = found
add_some (some n) found = add_sorted n found

abbrev pub callee : Expr → Option ℕ
callee (call f args) = proc_index f
callee e = none

unfoldable pub callees_in : List Expr → List ℕ
unfolding add_sorted proc_index
callees_in [] = []
callees_in (e ∷ es) = add_some (callee e) (callees_in es)

-- GraphError, by what its text says.
pub data GraphError : Type 0 where
  no_entry : GraphError
  missing : ℕ → ℕ → GraphError
  not_higher : ℕ → ℕ → GraphError

-- The first error of the calls of procedure `i`, among `count` procedures.
unfoldable pub check_callees : ℕ → ℕ → List ℕ → Option GraphError
check_callees count i [] = none
check_callees count i (c ∷ cs) =
    let rest = check_callees count i cs in
    if leb count c then some (missing i c) else if leb c i then some (not_higher i c) else rest

abbrev pub or_else : Option GraphError → Option GraphError → Option GraphError
or_else none later = later
or_else (some e) later = some e

module _ {S : Type 0} (core : Traversal S) where
  unfoldable pub callees_of : Stmts → List ℕ
  unfolding callees_in each_expression
  callees_of body = callees_in (each_expression core body)

  unfoldable pub check_procs : ℕ → ℕ → List GenProc → Option GraphError
  unfolding check_callees callees_of
  check_procs count i [] = none
  check_procs count i (p ∷ ps) =
      or_else (check_callees count i (callees_of p.body)) (check_procs count (suc i) ps)

  -- `none` where it returns.
  unfoldable pub check_graph : GenProgram → Option GraphError
  unfolding check_procs
  check_graph gen = elim gen.procs [
    | [] ↦ some no_entry
    | p ∷ ps ↦ check_procs (length (p ∷ ps)) 0 (p ∷ ps)
  ]
