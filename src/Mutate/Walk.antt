-- ===== src/Mutate/Walk.antt =====
-- mutate.ts: `mutateStatement` and `mutateStatements`, the walk over statements.
use mog_jit.Prelude.{
  ℕ, Bool, true, false, ◌&&◌, not, List, [], ◌∷◌, Option, none, some, length, ltb, if◌then◌else◌,
}
use mog_jit.Ast.{
  PrimType, Expr, Declarator, ForInit, declares, Stmt, block, break_stmt, expression, return_stmt,
  declaration, if_then, if_else, while_stmt, do_while, for_stmt, switch, Stmts, stop, next, Cases,
  no_case, clause,
}
use mog_jit.Core.{◌>>=◌, ◌>>◌, pure}
use mog_jit.Walk.{as_list}
use mog_jit.Mutate.Machine.{Var, rolls, count_applied}
use mog_jit.Mutate.Exprs.{build, Ctx, rate_times, mutate_expr, mutate_at}
use mog_jit.Mutate.Stmts.{
  M, lift, scoped, push, child, single, ◌then_all◌, any_type, declared_vars, declare, empty_if,
  side_effect, wrap,
}
use mog_jit.Mutate.Clauses.{Clause, cases_of, last_of, change_cases}

unfoldable pub movable : Stmt → Bool
movable (declaration ds) = false
movable s = true

-- Whether to do what is allowed; no draw is made for what is not.
unfoldable pub attempted : Ctx → Bool → ℕ → M Bool
unfolding lift
attempted ctx allowed k = if allowed then lift (rate_times ctx k) else pure false

-- What one pass over a statement needs of it: the statement, and its mutation.
abbrev pub Step : Type 0
Step = Stmt × M Stmt

abbrev pub is_break : Option Stmt → Bool
is_break (some break_stmt) = true
is_break _ = false

unfoldable pub front : List Step → List Step
front [] = []
front (x ∷ []) = []
front (x ∷ y ∷ ys) = x ∷ front (y ∷ ys)

unfoldable pub retype : PrimType → List Declarator → List Declarator
retype t [] = []
retype t (d ∷ ds) = record d { var_type = t } ∷ retype t ds

abbrev pub if_stmt : Expr → Stmt → Option Stmt → Stmt
if_stmt c a none = if_then c a
if_stmt c a (some b) = if_else c a b

abbrev pub init_vars : ForInit → List Var
init_vars (declares ds) = declared_vars ds
init_vars _ = []

-- The steps of a control body, whose own mutation is the second argument.
unfoldable pub body_steps : Stmt → M Stmt → List Step → List Step
body_steps (block b) own inner = inner
body_steps s own inner = (s, own) ∷ []

module _ (ctx : Ctx) where
  -- What is inserted before a statement.
  unfoldable pub inserted : M Stmts
  unfolding lift scoped empty_if declare side_effect count_applied
  inserted = do
    b ← lift (rate_times ctx 50)
    if b
        then lift count_applied
          >> (lift (rolls 8 100) >>= λ empty.
              if empty
              then scoped empty_if >>= (λ s. pure (single s))
              else lift (rolls 1 2) >>= (λ declares_one.
                (if declares_one then declare ctx else scoped side_effect) >>= λ s.
                pure (single s)))
        else pure stop

  -- The mutation of a statement, in a construct around it or not.
  unfoldable pub kept : Step → M Stmt
  unfolding attempted lift scoped count_applied wrap movable
  kept step = do
    s ← step.1
    b ← attempted ctx (movable step.0) 35
    if b then lift count_applied >> scoped (λ vars. wrap ctx vars s) else pure s

  -- A second mutation of the statement, after the first one.
  unfoldable pub repeated : Step → M Stmts
  unfolding attempted lift child count_applied movable
  repeated step = do
    b ← attempted ctx (movable step.0) 15
    if b then lift count_applied >> (child step.1 >>= λ s. pure (single s)) else pure stop

  -- One pass of the loop of `mutateStatements`.
  unfoldable pub round : Bool → Bool → Step → M Stmts
  unfolding inserted attempted kept repeated ◌then_all◌ movable
  round in_loop many step = do
    before ← inserted
    drop ← attempted ctx (movable step.0 && not in_loop && many) 25
    if drop
        then lift count_applied >> pure before
        else kept step >>= (λ s. repeated step >>= λ more. pure (before then_all next s more))

  unfoldable pub rounds : Bool → Bool → List Step → M Stmts
  unfolding round
  rounds in_loop many [] = pure stop
  rounds in_loop many (x ∷ xs) = do
    out ← round in_loop many x
    rest ← rounds in_loop many xs
    pure (out then_all rest)

  -- Never an empty list.
  unfoldable pub or_effect : Stmts → M Stmts
  unfolding scoped side_effect
  or_effect stop = do s ← scoped side_effect; pure (single s)
  or_effect (next s ss) = pure (next s ss)

  unfoldable pub mutate_source : Bool → List Step → M Stmts
  unfolding rounds or_effect
  mutate_source in_loop steps = do out ← rounds in_loop (ltb 1 (length steps)) steps; or_effect out

  -- `mutateStatements` of a list, with the steps of its statements.
  unfoldable pub mutate_statements : Bool → Bool → Stmts → List Step → M Stmts
  unfolding mutate_source front last_of ◌then_all◌
  mutate_statements in_case in_loop list steps =
      if in_case && is_break (last_of list)
      then mutate_source in_loop (front steps) >>= (λ out. pure (out then_all single break_stmt))
      else mutate_source in_loop steps

  -- `mutateBody`.
  abbrev pub mutate_body : Bool → Bool → Stmts → List Step → M Stmts
  mutate_body in_case in_loop list steps = child (mutate_statements in_case in_loop list steps)

  abbrev pub mutated : Expr → M Expr
  mutated e = scoped (λ vars. mutate_expr ctx vars e)

  unfoldable pub mutate_declarator : Declarator → M Declarator
  unfolding scoped mutate_at
  mutate_declarator d = elim d.init [
    | none ↦ pure d
    | some e ↦ (do e' ← mutated e; pure (record d { init = some e' }))
  ]

  unfoldable pub mutate_declarators : List Declarator → M (List Declarator)
  unfolding mutate_declarator
  mutate_declarators [] = pure []
  mutate_declarators (d ∷ ds) = do
    d' ← mutate_declarator d
    ds' ← mutate_declarators ds
    pure (d' ∷ ds')

  unfoldable pub mutate_declaration : List Declarator → M Stmt
  unfolding mutate_declarators declared_vars push lift any_type retype count_applied
  mutate_declaration ds = do
    ds' ← mutate_declarators ds
    _ ← push (declared_vars ds')
    b ← lift (rate_times ctx 30)
    if b
        then lift count_applied >> (lift any_type >>= λ t. pure (declaration (retype t ds')))
        else pure (declaration ds')

  -- `else` is given to an `if` that has none.
  unfoldable pub maybe_else : M (Option Stmt)
  unfolding lift scoped side_effect
  maybe_else = do
    b ← lift (rate_times ctx 30)
    if b then (do s ← scoped side_effect; pure (some (block (single s)))) else pure none

  abbrev pub mutate_control : Bool → Stmt → List Step → M Stmt
  mutate_control in_loop s steps = do
    out ← mutate_statements false in_loop (as_list s) steps
    pure (block out)

  abbrev pub mutate_return : Option Expr → M Stmt
  mutate_return none = do e ← scoped (λ vars. build vars 2); pure (return_stmt (some e))
  mutate_return (some e) = do e' ← mutated e; pure (return_stmt (some e'))

  unfoldable mutual
    pub mutate_statement : Bool → Stmt → M Stmt
    mutate_statement in_loop break_stmt = pure break_stmt
    mutate_statement in_loop (block b) = do
      out ← mutate_body false in_loop b (steps_of in_loop b)
      pure (block out)
    mutate_statement in_loop (if_then c a) = do
      c' ← mutated c
      a' ← child (
          mutate_control in_loop a
            (body_steps a (mutate_statement in_loop a) (inner_steps in_loop a)))
      other ← maybe_else
      pure (if_stmt c' a' other)
    mutate_statement in_loop (if_else c a b) = do
      c' ← mutated c
      a' ← child (
          mutate_control in_loop a
            (body_steps a (mutate_statement in_loop a) (inner_steps in_loop a)))
      b' ← child (
          mutate_control in_loop b
            (body_steps b (mutate_statement in_loop b) (inner_steps in_loop b)))
      pure (if_else c' a' b')
    mutate_statement in_loop (while_stmt c b) = do
      b' ←
          child
            (mutate_control true b (body_steps b (mutate_statement true b) (inner_steps true b)))
      pure (while_stmt c b')
    mutate_statement in_loop (do_while b c) = do
      b' ←
          child
            (mutate_control true b (body_steps b (mutate_statement true b) (inner_steps true b)))
      pure (do_while b' c)
    mutate_statement in_loop (for_stmt i c u b) = do
      b' ← child (
          push (init_vars i)
          >> mutate_control true b (body_steps b (mutate_statement true b) (inner_steps true b)))
      pure (for_stmt i c u b')
    mutate_statement in_loop (switch e cs) = do
      bodies ← mutate_clauses in_loop cs
      changed ← scoped (λ vars. change_cases ctx vars bodies)
      e' ← mutated e
      pure (switch e' (cases_of changed))
    mutate_statement in_loop (declaration ds) = mutate_declaration ds
    mutate_statement in_loop (return_stmt e) = mutate_return e
    mutate_statement in_loop (expression e) = do e' ← mutated e; pure (expression e')

    pub steps_of : Bool → Stmts → List Step
    steps_of in_loop stop = []
    steps_of in_loop (next s ss) = (s, mutate_statement in_loop s) ∷ steps_of in_loop ss

    pub inner_steps : Bool → Stmt → List Step
    inner_steps in_loop (block b) = steps_of in_loop b
    inner_steps in_loop s = []

    pub mutate_clauses : Bool → Cases → M (List Clause)
    mutate_clauses in_loop no_case = pure []
    mutate_clauses in_loop (clause t b cs) = do
      b' ← mutate_body true in_loop b (steps_of in_loop b)
      rest ← mutate_clauses in_loop cs
      pure (record { test = t; consequent = b' } ∷ rest)
