-- ===== src/Ub.antt =====
-- fuzz/ts/gen/ub.ts: the filter for programs whose operands have conflicting effects. A set of names
-- is a list. An exception on a conflict is `none`; its text, which prints the expression, is left
-- out. The summaries of the procedures are a parameter, and so is the walk that makes them.
mod Conflict
mod Writes
mod Leaves
mod Frame
pub mod Graph
mod Tests
use mog_jit.Prelude.{
  ℕ, Bool, true, false, ◌||◌, ◌&&◌, List, [], ◌∷◌, ◌++◌, Option, none, some, if◌then◌else◌,
}
use mog_jit.Prelude.Text.{Text, codes, text_eq}
use mog_jit.Ast.{
  AssignOp, plain, compound, Expr, literal, ident, cast, assignment, conditional, logical, binary,
  unary, update, call, Exprs, nil, cons, Stmt, Stmts,
}
use mog_jit.Eval.Ops.{one_of, proc_index}
use mog_jit.Walk.{each_statement, child_expressions}

-- Mem.
pub data Access : Type 0 where
  untouched read write : Access

pub record Effects : Type 0 where
  pub reads : List Text
  pub writes : List Text
  pub mem : Access
  pub terminates : Bool

-- `none`.
abbrev pub no_effects : Effects
no_effects = record { reads = []; writes = []; mem = untouched; terminates = false }

abbrev pub mem_read : List Text
mem_read = codes "ld8" ∷ codes "ld16" ∷ codes "ld32" ∷ codes "memcmp" ∷ codes "slicecmp" ∷ []

abbrev pub mem_write : List Text
mem_write = codes "st8" ∷ codes "st16" ∷ codes "st32" ∷ codes "memmove" ∷ []

abbrev pub pure_names : List Text
pure_names = codes "clz" ∷ codes "revbits" ∷ []

unfoldable pub stronger_mem : Access → Access → Access
stronger_mem write b = write
stronger_mem a write = write
stronger_mem read b = read
stronger_mem a read = read
stronger_mem untouched untouched = untouched

-- One round of the loop of `union`.
unfoldable pub joined_with : Effects → Effects → Effects
unfolding stronger_mem
joined_with out p = record {
  reads = out.reads ++ p.reads;
  writes = out.writes ++ p.writes;
  mem = stronger_mem out.mem p.mem;
  terminates = out.terminates || p.terminates;
}

unfoldable pub union_from : Effects → List Effects → Effects
unfolding joined_with
union_from out [] = out
union_from out (p ∷ ps) = union_from (joined_with out p) ps

unfoldable pub union : List Effects → Effects
unfolding union_from
union parts = union_from no_effects parts

abbrev some_name : List Text → Bool
some_name [] = false
some_name (x ∷ xs) = true

abbrev pub is_touched : Access → Bool
is_touched untouched = false
is_touched _ = true

abbrev pub is_write : Access → Bool
is_write write = true
is_write _ = false

unfoldable pub touches : Effects → Bool
touches e = some_name e.writes || (is_touched e.mem || e.terminates)

unfoldable pub intersects : List Text → List Text → Bool
intersects [] b = false
intersects (x ∷ a) b = one_of x b || intersects a b

unfoldable pub conflict : Effects → Effects → Bool
unfolding touches intersects
conflict a b =
    if intersects a.writes b.reads || (intersects b.writes a.reads || intersects a.writes b.writes)
    then true
    else if is_write a.mem && is_touched b.mem
    then true
    else if is_write b.mem && is_touched a.mem
    then true
    else if a.terminates && touches b
    then true
    else b.terminates && touches a

-- What a call can do, by the procedure's index.
pub record Summary : Type 0 where
  pub mem : Access
  pub terminates : Bool

abbrev pub Summaries : Type 0
Summaries = ℕ → Option Summary

-- The pairs i < k of the arguments.
unfoldable pub conflict_with_any : Effects → List Effects → Bool
unfolding conflict
conflict_with_any a [] = false
conflict_with_any a (b ∷ bs) = conflict a b || conflict_with_any a bs

unfoldable pub some_conflict : List Effects → Bool
unfolding conflict_with_any
some_conflict [] = false
some_conflict (a ∷ rest) = conflict_with_any a rest || some_conflict rest

unfoldable pub with_summary : Effects → Option Summary → Effects
unfolding stronger_mem
with_summary out (some s) = record out {
  mem = stronger_mem out.mem s.mem;
  terminates = out.terminates || s.terminates;
}
with_summary out none = record out { mem = write; terminates = true }

unfoldable pub with_procedure : Summaries → Effects → Option ℕ → Effects
unfolding with_summary
with_procedure summaries out none = out
with_procedure summaries out (some i) = with_summary out (summaries i)

-- The callee's own effects, on top of its arguments'.
unfoldable pub with_callee : Summaries → Text → Effects → Effects
unfolding with_procedure stronger_mem
with_callee summaries name out =
    if text_eq name (codes "trap")
    then record out { terminates = true }
    else if one_of name pure_names
    then out
    else if one_of name mem_read
    then record out { mem = stronger_mem out.mem read }
    else if one_of name mem_write
    then record out { mem = write }
    else with_procedure summaries out (proc_index name)

infixl 5 ◌>>=◌
abbrev pub ◌>>=◌ : {A B : Type 0} → Option A → (A → Option B) → Option B
none >>= k = none
some a >>= k = k a

-- `throw new Unsequenced` where the test holds.
abbrev pub unless : {A : Type 0} → Bool → A → Option A
unless true a = none
unless false a = some a

-- What an assignment reads besides its right side.
abbrev pub also_read : AssignOp → Text → List Text → List Text
also_read plain x names = names
also_read (compound op) x names = x ∷ names

abbrev pub written : Expr → List Text → List Text
written (ident x) names = x ∷ names
written _ names = names

module _ (summaries : Summaries) where
  unfoldable mutual
    pub analyze_expr : Expr → Option Effects
    analyze_expr (literal v) = some no_effects
    analyze_expr (ident x) = some (record no_effects { reads = x ∷ [] })
    analyze_expr (cast t e) = analyze_expr e
    analyze_expr (unary op e) = analyze_expr e
    analyze_expr (update op pre e) = do
      out ← analyze_expr e
      some (record out { writes = written e out.writes })
    analyze_expr (assignment op x e) = do
      out ← analyze_expr e
      some (record out { reads = also_read op x out.reads; writes = x ∷ out.writes })
    analyze_expr (logical op l r) = do
      a ← analyze_expr l
      b ← analyze_expr r
      some (union (a ∷ b ∷ []))
    analyze_expr (conditional c a b) = do
      x ← analyze_expr c
      y ← analyze_expr a
      z ← analyze_expr b
      some (union (x ∷ y ∷ z ∷ []))
    analyze_expr (binary op l r) = do
      a ← analyze_expr l
      b ← analyze_expr r
      unless (conflict a b) (union (a ∷ b ∷ []))
    analyze_expr (call f args) = do
      all ← analyze_all args
      unless (some_conflict all) (with_callee summaries f (union all))

    pub analyze_all : Exprs → Option (List Effects)
    analyze_all nil = some []
    analyze_all (cons e es) = do a ← analyze_expr e; rest ← analyze_all es; some (a ∷ rest)

  -- The expressions of one statement, each on its own.
  unfoldable pub analyze_each : List Expr → Option (List Effects)
  analyze_each [] = some []
  analyze_each (e ∷ es) = do a ← analyze_expr e; rest ← analyze_each es; some (a ∷ rest)

  unfoldable pub analyze_statements : List Stmt → Option (List Effects)
  unfolding analyze_each
  analyze_statements [] = some []
  analyze_statements (s ∷ ss) = do
    here ← analyze_each (child_expressions s)
    rest ← analyze_statements ss
    some (here ++ rest)

  unfoldable pub analyze_body : Stmts → Option Effects
  unfolding analyze_statements
  analyze_body body = do parts ← analyze_statements (each_statement body); some (union parts)
