-- ===== src/Walk/Visits.antt =====
-- walk.ts: `eachStatement` as the source writes it, over `childBodies`.
use mog_jit.Prelude.{sym, ◌∙◌, ◌≡◌, refl, List, [], ◌∷◌, ◌++◌, append-nil, ap, ap₂}
use mog_jit.Ast.{
  Stmt, block, break_stmt, expression, return_stmt, declaration, if_then, if_else, while_stmt,
  do_while, for_stmt, switch, Stmts, stop, next, Cases, no_case, clause,
}
use mog_jit.Walk.{as_list, consequents, child_bodies, each_statement, nested, within, in_cases}

-- `eachStatement` of every list in turn.
unfoldable each_body : List Stmts → List Stmt
each_body [] = []
each_body (b ∷ bs) = each_statement b ++ each_body bs

-- A list of one statement is visited as the statement and what is nested in it.
alone : (s : Stmt) → s ∷ nested s ≡ each_statement (next s stop)
unfolding each_statement
alone s = sym (ap (λ l. s ∷ l) (append-nil (nested s)))

within-as_list : (s : Stmt) → within s ≡ each_statement (as_list s)
unfolding each_statement as_list
within-as_list (block b) = refl
within-as_list break_stmt = alone break_stmt
within-as_list (expression e) = alone (expression e)
within-as_list (return_stmt e) = alone (return_stmt e)
within-as_list (declaration ds) = alone (declaration ds)
within-as_list (if_then c a) = alone (if_then c a)
within-as_list (if_else c a b) = alone (if_else c a b)
within-as_list (while_stmt c b) = alone (while_stmt c b)
within-as_list (do_while b c) = alone (do_while b c)
within-as_list (for_stmt i c u b) = alone (for_stmt i c u b)
within-as_list (switch e cs) = alone (switch e cs)

in_cases-consequents : (cs : Cases) → in_cases cs ≡ each_body (consequents cs)
unfolding each_statement each_body consequents
in_cases-consequents no_case = refl
in_cases-consequents (clause t b cs) = ap (λ l. each_statement b ++ l) (in_cases-consequents cs)

one_body : (s : Stmt) → within s ≡ each_statement (as_list s) ++ []
one_body s = within-as_list s ∙ sym (append-nil (each_statement (as_list s)))

nested-child_bodies : (s : Stmt) → nested s ≡ each_body (child_bodies s)
unfolding each_statement each_body child_bodies
nested-child_bodies (block b) = sym (append-nil (each_statement b))
nested-child_bodies break_stmt = refl
nested-child_bodies (expression e) = refl
nested-child_bodies (return_stmt e) = refl
nested-child_bodies (declaration ds) = refl
nested-child_bodies (if_then c a) = one_body a
nested-child_bodies (if_else c a b) = ap₂ (λ k l. k ++ l) (within-as_list a) (one_body b)
nested-child_bodies (while_stmt c b) = one_body b
nested-child_bodies (do_while b c) = one_body b
nested-child_bodies (for_stmt i c u b) = one_body b
nested-child_bodies (switch e cs) = in_cases-consequents cs

-- The statements of a list are visited in pre-order: each before all those of its bodies, which
-- `childBodies` lists, and these before those that follow it.
each_statement-next :
    (s : Stmt) (rest : Stmts)
    → each_statement (next s rest) ≡ s ∷ (each_body (child_bodies s) ++ each_statement rest)
unfolding each_statement
each_statement-next s rest = ap (λ l. s ∷ (l ++ each_statement rest)) (nested-child_bodies s)
