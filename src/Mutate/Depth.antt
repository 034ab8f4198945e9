-- ===== src/Mutate/Depth.antt =====
-- mutate.ts, `nestDepth`, as the source writes it: over `childBodies`.
use mog_jit.Prelude.{ℕ, suc, ◌≡◌, refl, ap, ap₂, arith, List, [], ◌∷◌, max}
use mog_jit.Ast.{
  Stmt, block, break_stmt, expression, return_stmt, declaration, if_then, if_else, while_stmt,
  do_while, for_stmt, switch, Stmts, next, Cases, no_case, clause,
}
use mog_jit.Walk.{as_list, consequents, child_bodies}
use mog_jit.Mutate.Program.{nest_depth, depth_below, depth_within, depth_in_cases}

-- The maximum of `1 + nestDepth(nested)` over these lists, and of 0.
unfoldable deepest : List Stmts → ℕ
unfolding nest_depth
deepest [] = 0
deepest (b ∷ bs) = max (suc (nest_depth b)) (deepest bs)

depth_within-as_list : (s : Stmt) → depth_within s ≡ nest_depth (as_list s)
unfolding nest_depth as_list
depth_within-as_list (block b) = refl
depth_within-as_list break_stmt = refl
depth_within-as_list (expression e) = refl
depth_within-as_list (return_stmt e) = refl
depth_within-as_list (declaration ds) = refl
depth_within-as_list (if_then c a) = omega arith
depth_within-as_list (if_else c a b) = omega arith
depth_within-as_list (while_stmt c b) = omega arith
depth_within-as_list (do_while b c) = omega arith
depth_within-as_list (for_stmt i c u b) = omega arith
depth_within-as_list (switch e cs) = omega arith

depth_in_cases-consequents : (cs : Cases) → depth_in_cases cs ≡ deepest (consequents cs)
unfolding nest_depth deepest consequents
depth_in_cases-consequents no_case = refl
depth_in_cases-consequents (clause t b cs) =
    ap (max (suc (nest_depth b))) (depth_in_cases-consequents cs)

one_deep : (s : Stmt) → suc (depth_within s) ≡ max (suc (nest_depth (as_list s))) 0
one_deep s = let h = depth_within-as_list s in omega arith

depth_below-child_bodies : (s : Stmt) → depth_below s ≡ deepest (child_bodies s)
unfolding nest_depth deepest child_bodies
depth_below-child_bodies (block b) = omega arith
depth_below-child_bodies break_stmt = refl
depth_below-child_bodies (expression e) = refl
depth_below-child_bodies (return_stmt e) = refl
depth_below-child_bodies (declaration ds) = refl
depth_below-child_bodies (if_then c a) = one_deep a
depth_below-child_bodies (if_else c a b) = ap₂ max (ap suc (depth_within-as_list a)) (one_deep b)
depth_below-child_bodies (while_stmt c b) = one_deep b
depth_below-child_bodies (do_while b c) = one_deep b
depth_below-child_bodies (for_stmt i c u b) = one_deep b
depth_below-child_bodies (switch e cs) = depth_in_cases-consequents cs

-- The depth of a list is the greater of its first statement's, which is the greatest of one more than
-- the depth of each of the lists that `childBodies` gives, and of that of the others.
nest_depth-next :
    (s : Stmt) (rest : Stmts)
    → nest_depth (next s rest) ≡ max (deepest (child_bodies s)) (nest_depth rest)
unfolding nest_depth
nest_depth-next s rest = ap (λ d. max d (nest_depth rest)) (depth_below-child_bodies s)
