-- ===== src/Walk.antt =====
-- fuzz/ts/gen/walk.ts: the traversal of statements. A visit of each in turn is the list of what is
-- visited. Sub-expressions are walked by a function of mog-core, and are left out.
mod Visits
pub mod Subs
use mog_jit.Prelude.{List, [], ◌∷◌, ◌++◌, Option, none, some, map}
use mog_jit.Prelude.Text.{Text}
use mog_jit.Ast.{
  Expr, Declarator, ForInit, no_init, declares, computes, Stmt, block, break_stmt, expression,
  return_stmt, declaration, if_then, if_else, while_stmt, do_while, for_stmt, switch, Stmts, stop,
  next, Cases, no_case, clause,
}

-- `asList`.
unfoldable pub as_list : Stmt → Stmts
as_list (block b) = b
as_list s = next s stop

unfoldable pub consequents : Cases → List Stmts
consequents no_case = []
consequents (clause t b cs) = b ∷ consequents cs

unfoldable pub child_bodies : Stmt → List Stmts
unfolding as_list consequents
child_bodies (block b) = b ∷ []
child_bodies (if_then c a) = as_list a ∷ []
child_bodies (if_else c a b) = as_list a ∷ as_list b ∷ []
child_bodies (while_stmt c b) = as_list b ∷ []
child_bodies (do_while b c) = as_list b ∷ []
child_bodies (for_stmt i c u b) = as_list b ∷ []
child_bodies (switch e cs) = consequents cs
child_bodies _ = []

abbrev pub if_any : Option Expr → List Expr
if_any none = []
if_any (some e) = e ∷ []

unfoldable pub inits : List Declarator → List Expr
inits [] = []
inits (d ∷ ds) = if_any d.init ++ inits ds

unfoldable pub init_expressions : ForInit → List Expr
unfolding inits
init_expressions no_init = []
init_expressions (declares ds) = inits ds
init_expressions (computes e) = e ∷ []

unfoldable pub case_tests : Cases → List Expr
case_tests no_case = []
case_tests (clause t b cs) = if_any t ++ case_tests cs

unfoldable pub child_expressions : Stmt → List Expr
unfolding inits init_expressions case_tests
child_expressions (if_then c a) = c ∷ []
child_expressions (if_else c a b) = c ∷ []
child_expressions (while_stmt c b) = c ∷ []
child_expressions (do_while b c) = c ∷ []
child_expressions (for_stmt i c u b) = init_expressions i ++ if_any c ++ if_any u
child_expressions (switch e cs) = e ∷ case_tests cs
child_expressions (declaration ds) = inits ds
child_expressions (return_stmt e) = if_any e
child_expressions (expression e) = e ∷ []
child_expressions _ = []

-- `eachStatement`: pre-order, by recursion on the tree in place of `childBodies`.
unfoldable mutual
  pub each_statement : Stmts → List Stmt
  each_statement stop = []
  each_statement (next s rest) = s ∷ (nested s ++ each_statement rest)

  -- The visits of the bodies of `s`.
  pub nested : Stmt → List Stmt
  nested (block b) = each_statement b
  nested (if_then c a) = within a
  nested (if_else c a b) = within a ++ within b
  nested (while_stmt c b) = within b
  nested (do_while b c) = within b
  nested (for_stmt i c u b) = within b
  nested (switch e cs) = in_cases cs
  nested break_stmt = []
  nested (expression e) = []
  nested (return_stmt e) = []
  nested (declaration ds) = []

  -- The visits of a control body, as `asList` gives it.
  pub within : Stmt → List Stmt
  within (block b) = each_statement b
  within (if_then c a) = if_then c a ∷ within a
  within (if_else c a b) = if_else c a b ∷ (within a ++ within b)
  within (while_stmt c b) = while_stmt c b ∷ within b
  within (do_while b c) = do_while b c ∷ within b
  within (for_stmt i c u b) = for_stmt i c u b ∷ within b
  within (switch e cs) = switch e cs ∷ in_cases cs
  within break_stmt = break_stmt ∷ []
  within (expression e) = expression e ∷ []
  within (return_stmt e) = return_stmt e ∷ []
  within (declaration ds) = declaration ds ∷ []

  pub in_cases : Cases → List Stmt
  in_cases no_case = []
  in_cases (clause t b cs) = each_statement b ++ in_cases cs

-- The names that a statement introduces by itself.
unfoldable pub names_of : Stmt → List Text
names_of (declaration ds) = map (λ (d : Declarator). d.name) ds
names_of (for_stmt (declares ds) c u b) = map (λ (d : Declarator). d.name) ds
names_of _ = []

unfoldable pub names_in : List Stmt → List Text
unfolding names_of
names_in [] = []
names_in (s ∷ ss) = names_of s ++ names_in ss

-- `declaredNames`, with a name as often as it is declared.
unfoldable pub declared_names : Stmts → List Text
unfolding each_statement names_in
declared_names list = names_in (each_statement list)
