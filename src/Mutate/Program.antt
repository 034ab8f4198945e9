-- ===== src/Mutate/Program.antt =====
-- mutate.ts: the mutant of a whole program, and the programs that are padded out.
use mog_jit.Prelude.{
  ℕ, zero, suc, ◌+◌, Bool, true, false, ◌&&◌, ◌||◌, not, List, [], ◌∷◌, ◌++◌, Option, none, some,
  length, get_elem?, get_or, ltb, max, if◌then◌else◌,
}
use mog_jit.Prelude.Text.{Text, codes}
use mog_jit.Prelude.Word.{to_u32}
use mog_jit.Ast.{
  u32, Expr, literal, ident, call, Stmt, block, expression, return_stmt, if_then, if_else,
  while_stmt, do_while, for_stmt, switch, Stmts, stop, next, Cases, no_case, clause, GenProc,
  GenProgram,
}
use mog_jit.Core.{Traversal, ◌>>=◌, pure}
use mog_jit.Rng.{seeded, imul}
use mog_jit.Walk.{declared_names}
use mog_jit.Walk.Subs.{flat, each_expression}
use mog_jit.Corpus.{proc_name, callees_of}
use mog_jit.Ub.Graph.{unsequenced}
use mog_jit.Mutate.Machine.{Var, Gen, G, rolls, below, within, fresh}
use mog_jit.Mutate.Exprs.{Ctx, Callable, build, build_args, is_opaque}
use mog_jit.Mutate.Stmts.{
  M, scoped, single, ◌then_all◌, declare, side_effect, counted_loop, counted_do_while,
}
use mog_jit.Mutate.Clauses.{last_of, is_trap}
use mog_jit.Mutate.Walk.{mutate_statements, steps_of}

-- Does a body that ends so give a value, or stop?
unfoldable pub is_closed : Option Stmt → Bool
unfolding is_trap
is_closed (some (return_stmt (some e))) = true
is_closed (some (expression e)) = is_trap e
is_closed _ = false

unfoldable pub close_with_return : Stmts → M Stmts
unfolding is_closed last_of scoped build ◌then_all◌
close_with_return body =
    if is_closed (last_of body)
    then pure body
    else (do e ← scoped (λ vars. build vars 2); pure (body then_all single (return_stmt (some e))))

-- Is this expression spliced into others?
unfoldable pub is_donor : Expr → Bool
is_donor (ident x) = false
is_donor (literal v) = false
is_donor e = not (is_opaque e)

unfoldable pub donors_in : List Expr → List Expr
unfolding is_donor
donors_in [] = []
donors_in (e ∷ es) = let rest = donors_in es in if is_donor e then e ∷ rest else rest

unfoldable pub names_read : List Expr → List Text
names_read [] = []
names_read (ident x ∷ es) = x ∷ names_read es
names_read (e ∷ es) = names_read es

unfoldable pub arg_vars : List Text → List Var
arg_vars [] = []
arg_vars (x ∷ xs) = record { name = x; var_type = u32 } ∷ arg_vars xs

-- `{name: procName(i), arity}` of these procedures, the first of which has the index `i`.
unfoldable pub callables_from : ℕ → List GenProc → List Callable
callables_from i [] = []
callables_from i (p ∷ ps) =
    record { name = proc_name i; arity = length p.args } ∷ callables_from (suc i) ps

-- To run on a scope that holds these.
unfoldable pub in_scope : {A : Type 0} → List Var → M A → G A
in_scope vars m g = let r = m (record { gen = g; vars = vars }) in (r.0, r.1.gen)

unfoldable pub fresh_names : Text → ℕ → G (List Text)
unfolding fresh
fresh_names prefix zero = pure []
fresh_names prefix (suc n) = do x ← fresh prefix; xs ← fresh_names prefix n; pure (x ∷ xs)

unfoldable pub prepend_to : ℕ → Stmt → List GenProc → List GenProc
prepend_to i s [] = []
prepend_to zero s (p ∷ ps) = record p { body = next s p.body } ∷ ps
prepend_to (suc i) s (p ∷ ps) = p ∷ prepend_to i s ps

abbrev pub args_of : Option GenProc → List Text
args_of none = []
args_of (some p) = p.args

-- A new leaf procedure at the end, and a call of it at the head of another one.
unfoldable pub grow : Text → List GenProc → G (List GenProc)
unfolding fresh_names arg_vars build build_args prepend_to
grow prefix procs = do
  arity ← within 0 4
  args ← fresh_names prefix arity
  value ← build (arg_vars args) 2
  from ← below (length procs)
  let grown = procs ++ (record { args = args; body = single (return_stmt (some value)) } ∷ [])
  passed ← build_args (arg_vars (args_of (get_elem? grown from))) arity
  pure (prepend_to from (expression (call (proc_name (length procs)) passed)) grown)

unfoldable pub maybe_grow : Text → List GenProc → G (List GenProc)
unfolding grow
maybe_grow prefix procs = do
  b ← rolls 15 100
  if b && ltb (length procs) 8 then grow prefix procs else pure procs

module _ (core : Traversal Gen) where
  unfoldable pub harvest : GenProgram → List Expr
  unfolding flat donors_in each_expression
  harvest gen = flat (λ (p : GenProc). donors_in (each_expression core p.body)) gen.procs

  unfoldable pub names_used : GenProgram → List Text
  unfolding flat names_read each_expression declared_names
  names_used gen =
      flat
        (λ (p : GenProc).
          p.args ++ (names_read (each_expression core p.body) ++ declared_names p.body))
        gen.procs

  -- A procedure with its context: the procedures after it are the ones it may call.
  unfoldable pub mutate_proc : Ctx → GenProc → G GenProc
  unfolding mutate_statements in_scope arg_vars close_with_return
  mutate_proc ctx p = do
    body ←
        in_scope (arg_vars p.args) (
          mutate_statements ctx false false p.body (steps_of ctx false p.body)
          >>= close_with_return)
    pure (record p { body = body })

  -- `ctx.applied` starts from 0.
  unfoldable pub reset_applied : G (Unit {0})
  reset_applied g = (tt, record g { applied = 0 })

  -- The procedures from the index `i` on.
  unfoldable pub mutate_procs : List Expr → ℕ × ℕ → ℕ → List GenProc → G (List GenProc)
  unfolding mutate_proc callables_from reset_applied
  mutate_procs donors rate i [] = pure []
  mutate_procs donors rate i (p ∷ ps) = do
    _ ← reset_applied
    p' ←
        mutate_proc
          (record {
            prefix = codes "v";
            core = core;
            callable = callables_from (suc i) ps;
            donors = donors;
            rate_num = rate.0;
            rate_den = rate.1;
          })
          p
    ps' ← mutate_procs donors rate (suc i) ps
    pure (p' ∷ ps')

  abbrev pub start : GenProgram → ℕ → Gen
  start gen seed = record { rng = seeded seed; counter = 0; used = names_used gen; applied = 0 }

  abbrev pub all_procs : GenProgram → ℕ × ℕ → List Expr → G (List GenProc)
  all_procs gen rate donors =
      mutate_procs (harvest gen ++ donors) rate 0 gen.procs >>= maybe_grow (codes "v")

  -- The probability of a site is a fraction; 12 / 100 where the options give none.
  unfoldable pub mutate : GenProgram → ℕ → ℕ × ℕ → List Expr → GenProgram
  unfolding mutate_procs maybe_grow names_used harvest
  mutate gen seed rate donors = record { procs = (all_procs gen rate donors (start gen seed)).0 }

  -- The attempts from `attempt` on.
  unfoldable pub first_sequenced : (ℕ → GenProgram) → ℕ → ℕ → Option GenProgram
  unfolding unsequenced
  first_sequenced candidate zero attempt = none
  first_sequenced candidate (suc more) attempt =
      let rest = first_sequenced candidate more (suc attempt) in
      if unsequenced core (candidate attempt) then rest else some (candidate attempt)

  unfoldable pub mutate_sequenced : GenProgram → ℕ → ℕ × ℕ → List Expr → Option GenProgram
  unfolding first_sequenced mutate
  mutate_sequenced gen seed rate donors =
      first_sequenced (λ attempt. mutate gen (to_u32 (imul seed 0x9e3779b1 + attempt)) rate donors)
        6 0

  unfoldable pub declares_n : Ctx → ℕ → M Stmts
  unfolding declare
  declares_n ctx zero = pure stop
  declares_n ctx (suc n) = do s ← declare ctx; rest ← declares_n ctx n; pure (next s rest)

  unfoldable pub effects_n : ℕ → List Var → G Stmts
  unfolding side_effect
  effects_n zero vars = pure stop
  effects_n (suc n) vars = do s ← side_effect vars; rest ← effects_n n vars; pure (next s rest)

  abbrev pub inflating : Ctx
  inflating = record {
    prefix = codes "w";
    core = core;
    callable = [];
    donors = [];
    rate_num = 0;
    rate_den = 1;
  }

  -- The constructs over the padding but the last, which is the default.
  unfoldable pub spans : Stmts → List Var → List (G Stmt)
  unfolding build counted_loop
  spans pad vars =
      (do test ← build vars 1; pure (if_then test (block pad))) ∷ counted_loop inflating pad ∷ []

  unfoldable pub span_over : Stmts → List Var → G Stmt
  unfolding spans counted_do_while
  span_over pad vars = do
    shape ← below 3
    get_or (spans pad vars) shape (counted_do_while inflating pad)

  unfoldable pub inflated_body : ℕ → Stmts → M Stmts
  unfolding declares_n effects_n scoped span_over ◌then_all◌ close_with_return
  inflated_body statements body = do
    prologue ← declares_n inflating 3
    pad ← scoped (effects_n statements)
    span ← scoped (span_over pad)
    close_with_return (prologue then_all next span body)

  -- Of the program whose entry and other procedures these are.
  unfoldable pub inflate : GenProc → List GenProc → ℕ → ℕ → GenProgram
  unfolding inflated_body in_scope names_used arg_vars
  inflate entry others seed statements =
      let made = in_scope (arg_vars entry.args) (inflated_body statements entry.body) in
      record {
        procs =
            record entry { body = (made (start (record { procs = entry ∷ others }) seed)).0 }
            ∷ others;
      }

  unfoldable pub inflate_sequenced : GenProc → List GenProc → ℕ → ℕ → Option GenProgram
  unfolding first_sequenced inflate
  inflate_sequenced entry others seed statements =
      first_sequenced
        (λ attempt. inflate entry others (to_u32 (imul seed 0x85ebca6b + attempt)) statements) 6 0

  abbrev some_callee : List ℕ → Bool
  some_callee [] = false
  some_callee (c ∷ cs) = true

  unfoldable pub call_depth_reached : List GenProc → Bool
  unfolding callees_of
  call_depth_reached [] = false
  call_depth_reached (p ∷ ps) = some_callee (callees_of core p.body) || call_depth_reached ps

-- `nestDepth`, by recursion on the tree in place of `childBodies`; a control body that is no block is
-- a list of one statement.
unfoldable mutual
  pub nest_depth : Stmts → ℕ
  nest_depth stop = 0
  nest_depth (next s ss) = max (depth_below s) (nest_depth ss)

  pub depth_below : Stmt → ℕ
  depth_below (block b) = suc (nest_depth b)
  depth_below (if_then c a) = suc (depth_within a)
  depth_below (if_else c a b) = max (suc (depth_within a)) (suc (depth_within b))
  depth_below (while_stmt c b) = suc (depth_within b)
  depth_below (do_while b c) = suc (depth_within b)
  depth_below (for_stmt i c u b) = suc (depth_within b)
  depth_below (switch e cs) = depth_in_cases cs
  depth_below s = 0

  pub depth_within : Stmt → ℕ
  depth_within (block b) = nest_depth b
  depth_within (if_then c a) = suc (depth_within a)
  depth_within (if_else c a b) = max (suc (depth_within a)) (suc (depth_within b))
  depth_within (while_stmt c b) = suc (depth_within b)
  depth_within (do_while b c) = suc (depth_within b)
  depth_within (for_stmt i c u b) = suc (depth_within b)
  depth_within (switch e cs) = depth_in_cases cs
  depth_within s = 0

  pub depth_in_cases : Cases → ℕ
  depth_in_cases no_case = 0
  depth_in_cases (clause t b cs) = max (suc (nest_depth b)) (depth_in_cases cs)
