-- ===== src/Mutate/Tests.antt =====
-- mutate.ts: the theorems at a small program.
use mog_jit.Prelude.{◌≡◌, refl, arith, ◌+◌, [], ◌∷◌, none, some, inl, inr}
use mog_jit.Prelude.Text.{Text, codes}
use mog_jit.Prelude.Word.{to_u32}
use mog_jit.Ast.{
  u32, plain, literal, ident, assignment, call, nil, cons, block, break_stmt, expression,
  return_stmt, declaration, while_stmt, switch, next, no_case, clause, GenProc, GenProgram,
}
use mog_jit.Core.{Traversal, IsTraversal, direct, rebuilt}
use mog_jit.Eval.Ops.{proc_index}
use mog_jit.Rng.{imul}
use mog_jit.Corpus.{proc_name, check_graph}
use mog_jit.Corpus.Names.{proc_index-proc_name}
use mog_jit.Eval.Ops.{one_of}
use mog_jit.Mutate.Names.{fresh-untaken}
use mog_jit.Mutate.Machine.{fresh}
use mog_jit.Prelude.{true, false}
use mog_jit.Mutate.Machine.{Gen}
use mog_jit.Mutate.Exprs.{arity_of}
use mog_jit.Mutate.Fit.{Fit}
use mog_jit.Mutate.Stmts.{single}
use mog_jit.Mutate.Clauses.{last_of}
use mog_jit.Mutate.Program.{is_closed, mutate, mutate_sequenced, inflate}
use mog_jit.Mutate.Scope.{introduced, after_decls, after, DeclsFit, StmtFit}
use mog_jit.Mutate.Legal.{
  arities_of, CallsUp, arg_env, EachFrom, LegalSource, LegalMutant, LegalGraph,
}
use mog_jit.Mutate.Mutants.{mutate-LegalGraph, check_graph-mutate}
use mog_jit.Mutate.InflateFit.{inflate-LegalMutant}
use mog_jit.Mutate.Sequenced.{Found, mutate_sequenced-Found}

abbrev plain_core : Traversal Gen
plain_core = record { children = direct; map_over = rebuilt }

plain_core-IsTraversal : IsTraversal plain_core
plain_core-IsTraversal = record { children-direct = λ e. refl; map_over-rebuilt = λ f e. refl }

abbrev a_name : Text
a_name = codes "a"

abbrev x_name : Text
x_name = codes "x"

-- `u32 x = a; while(x) { x = p1(x); } return x;`
abbrev entry_proc : GenProc
entry_proc = record {
  args = a_name ∷ [];
  body =
      next (declaration (record { name = x_name; var_type = u32; init = some (ident a_name) } ∷ []))
        (next
          (while_stmt (ident x_name) (
            block (
              single (
                expression
                  (assignment plain x_name (call (codes "p1") (cons (ident x_name) nil)))))))
          (single (return_stmt (some (ident x_name)))));
}

-- `switch(a) { case 0: break; default: a; break; } return;`
abbrev leaf_proc : GenProc
leaf_proc = record {
  args = a_name ∷ [];
  body =
      next
        (switch (ident a_name) (
          clause (some (literal 0)) (single break_stmt)
            (clause none (next (expression (ident a_name)) (single break_stmt)) no_case)))
        (single (return_stmt none));
}

abbrev small_program : GenProgram
small_program = record { procs = entry_proc ∷ leaf_proc ∷ [] }

small_program-LegalSource : LegalSource small_program.procs
unfolding EachFrom StmtFit DeclsFit after introduced after_decls Fit arg_env CallsUp proc_index
    arities_of arity_of
small_program-LegalSource = (
  (
    (inr refl, tt),
    ((inr refl, ((tt, inr refl, ((omega arith, refl), (inr refl, tt))), tt)), (inr refl, tt)),
  ),
  (((inr refl, (tt, inl tt, (tt, inr (inr refl, inl tt), tt))), (tt, tt)), tt),
)

mutate-LegalGraph_example : LegalGraph (mutate plain_core small_program 7 (12, 100) []).procs
mutate-LegalGraph_example =
    mutate-LegalGraph plain_core plain_core-IsTraversal small_program 7 (12, 100) [] (omega arith)
      small_program-LegalSource tt

check_graph-mutate_example :
    check_graph plain_core (mutate plain_core small_program 7 (12, 100) []) ≡ none
check_graph-mutate_example =
    check_graph-mutate plain_core plain_core-IsTraversal small_program 7 (12, 100) [] (omega arith)
      small_program-LegalSource tt

mutate_sequenced-Found_example :
    Found plain_core
      (λ attempt.
        mutate plain_core small_program (to_u32 (imul 3 0x9e3779b1 + attempt)) (12, 100) [])
      6
      0
      (mutate_sequenced plain_core small_program 3 (12, 100) [])
mutate_sequenced-Found_example = mutate_sequenced-Found plain_core small_program 3 (12, 100) []

proc_index-proc_name_example : proc_index (proc_name 120) ≡ some 120
proc_index-proc_name_example = proc_index-proc_name 120

-- `return a;`
abbrev returns_a : GenProc
returns_a = record { args = a_name ∷ []; body = single (return_stmt (some (ident a_name))) }

returns_a-LegalMutant : LegalMutant (returns_a ∷ [])
unfolding EachFrom StmtFit Fit arg_env is_closed last_of
returns_a-LegalMutant = (((inr refl, tt), refl), tt)

inflate-LegalMutant_example : LegalMutant (inflate plain_core returns_a [] 5 400).procs
inflate-LegalMutant_example =
    inflate-LegalMutant plain_core returns_a [] 5 400 returns_a-LegalMutant

-- `v0` and `v1` are taken.
abbrev taken : Gen
taken = record { rng = 1; counter = 0; used = codes "v1" ∷ codes "v0" ∷ []; applied = 0 }

fresh-untaken_example :
    (one_of (fresh (codes "v") taken).0 taken.used ≡ false)
    × (one_of (fresh (codes "v") taken).0 (fresh (codes "v") taken).1.used ≡ true)
    × ((x : Text) → one_of x taken.used ≡ true → one_of x (fresh (codes "v") taken).1.used ≡ true)
fresh-untaken_example = fresh-untaken (codes "v") taken
