-- ===== src/Mutate/ProcsFit.antt =====
-- mutate.ts, `mutate`: lemmas on the procedures one by one.
use mog_jit.Prelude.{
  ℕ, suc, ◌+◌, ◌<◌, ◌≡◌, refl, ap, ap₂, arith, Bool, true, false, List, [], ◌∷◌, All, All-append,
  none, some, length, get_elem?, inl, inr, if◌then◌else◌, Bool-cases,
}
use mog_jit.Prelude.Text.{Text}
use mog_jit.Ast.{Expr, Stmt, return_stmt, Stmts, stop, next, GenProc, GenProgram}
use mog_jit.Core.{Traversal, IsTraversal}
use mog_jit.Eval.Ops.{proc_index}
use mog_jit.Walk.Subs.{flat, each_expression}
use mog_jit.Corpus.{proc_name}
use mog_jit.Corpus.Names.{proc_index-proc_name}
use mog_jit.Mutate.Machine.{Var, Gen}
use mog_jit.Mutate.Exprs.{Ctx, Callable}
use mog_jit.Mutate.Fit.{Fit, lowering}
use mog_jit.Mutate.Stmts.{M, single, ◌then_all◌}
use mog_jit.Mutate.Clauses.{last_of}
use mog_jit.Mutate.Program.{
  is_closed, close_with_return, is_donor, donors_in, arg_vars, callables_from, in_scope, harvest,
  mutate_proc, mutate_procs,
}
use mog_jit.Mutate.Yields.{Yields, Yields-pure, Yields-bind, Yields-then}
use mog_jit.Mutate.ExprsFit.{build-Fit}
use mog_jit.Mutate.Scope.{Env, Calls, with_name, Seen, after_all, fitting, StmtFit, StmtsFit}
use mog_jit.Mutate.Weaken.{Seen-weaken, StmtsFit-then_all, Fit-carry}
use mog_jit.Mutate.Makes.{Makes, Makes-pure, Makes-weaken, Stays-scoped, Makes-bind, Stays-bind}
use mog_jit.Mutate.BodiesFit.{mutate_statements-Fit}
use mog_jit.Mutate.StmtsFit.{steps_of-Fit}
use mog_jit.Mutate.Visited.{unscoped, each_expression-Fit}
use mog_jit.Mutate.Legal.{arities_of, CallsUp, arg_env, Source, Closed, Mutant, EachFrom}

pub CallsUp-builtin :
    (arities : List ℕ) (i : ℕ) (f : Text) (n : ℕ) → proc_index f ≡ none → CallsUp arities i f n
unfolding CallsUp
CallsUp-builtin arities i f n h = rw h tt

pub CallsUp-proc_name :
    (arities : List ℕ) (i j n : ℕ)
    → i < j
    → get_elem? arities j ≡ some n
    → CallsUp arities i (proc_name j) n
unfolding CallsUp
CallsUp-proc_name arities i j n h k = rw (proc_index-proc_name j) (h, k)

-- The procedures are those of a graph from the index `i` on.
abbrev pub Suffix : List ℕ → ℕ → List GenProc → Type 0
Suffix arities i ps =
    (k n : ℕ) → get_elem? (arities_of ps) k ≡ some n → get_elem? arities (i + k) ≡ some n

pub Suffix-next :
    (arities : List ℕ) (i : ℕ) (p : GenProc) (ps : List GenProc)
    → Suffix arities i (p ∷ ps)
    → Suffix arities (suc i) ps
unfolding arities_of
Suffix-next arities i p ps s k n h =
    let move : i + suc k ≡ suc i + k = omega arith in rw move at (s (suc k) n h)

callables_from-CallsUp :
    (arities : List ℕ) (i j : ℕ) (ps : List GenProc)
    → i < j
    → Suffix arities j ps
    → All (λ (c : Callable). CallsUp arities i c.name c.arity) (callables_from j ps)
unfolding callables_from arities_of
callables_from-CallsUp arities i j [] h s = tt
callables_from-CallsUp arities i j (p ∷ ps) h s =
    let here : j + 0 ≡ j = omega arith in
    (
      CallsUp-proc_name arities i j (length p.args) h (rw here at (s 0 (length p.args) refl)),
      callables_from-CallsUp arities i (suc j) ps (omega arith) (Suffix-next arities j p ps s),
    )

pub arg_vars-Seen : (args : List Text) → Seen (arg_env args) (arg_vars args)
unfolding arg_env arg_vars
arg_vars-Seen [] = tt
arg_vars-Seen (x ∷ xs) = (
  inr refl,
  Seen-weaken (arg_env xs) (with_name (arg_env xs) x) (arg_vars xs) (λ y h. inl h)
      (arg_vars-Seen xs),
)

last_of-then_all : (ss : Stmts) (s : Stmt) → last_of (ss then_all single s) ≡ some s
unfolding last_of ◌then_all◌
last_of-then_all stop s = refl
last_of-then_all (next t stop) s = refl
last_of-then_all (next t (next u us)) s = last_of-then_all (next u us) s

pub Yields-in_scope :
    {A : Type 0} (E : Env) (R : A → Env) (P : A → Type 0) (vars : List Var) (m : M A)
    → Seen E vars
    → Makes E R P m
    → Yields P (in_scope vars m)
unfolding in_scope
Yields-in_scope E R P vars m s h = record {
  answer = λ g. (h.result (record { gen = g; vars = vars }) s).0;
}

module _ (calls : Calls) (bare : Type 0)
    (builtins : (f : Text) (n : ℕ) → proc_index f ≡ none → calls f n) where
  abbrev pub Ends : Env → Stmts → Type 0
  Ends E body = StmtsFit calls bare E body × Closed body

  pub close_with_return-Fit :
      (E : Env) (body : Stmts)
      → StmtsFit calls bare E body
      → Makes (after_all E body) (λ out. after_all E body) (Ends E) (close_with_return body)
  unfolding close_with_return StmtFit is_closed
  close_with_return-Fit E body h = elim (Bool-cases (is_closed (last_of body))) [
    | inl e ↦ rw e (Makes-pure (after_all E body) _ (Ends E) body (h, e) (λ x l. l))
    | inr e ↦ rw e (
        Stays-bind (after_all E body) (Fit (fitting calls (after_all E body))) _ (Ends E) _ _
          (Stays-scoped (after_all E body) (Fit (fitting calls (after_all E body))) _
            (λ vars s. build-Fit (fitting calls (after_all E body)) builtins vars 2 s))
          (λ v k.
            Makes-pure (after_all E body) _ (Ends E) _
              (
                StmtsFit-then_all calls bare E body (single (return_stmt (some v))) h (k, tt),
                rw (last_of-then_all body (return_stmt (some v))) refl,
              )
              (λ x l. l)))
  ]

-- The donors that a program gives.
donors_in-Fit : (es : List Expr) → All (Fit lowering) es → All (Fit lowering) (donors_in es)
unfolding donors_in
donors_in-Fit [] h = tt
donors_in-Fit (e ∷ es) h = either (is_donor e) (donors_in-Fit es h.1)
  where
    either :
        (t : Bool)
        → All (Fit lowering) (donors_in es)
        → All (Fit lowering) (if t then e ∷ donors_in es else donors_in es)
    either true k = (h.0, k)
    either false k = k

module _ (core : Traversal Gen) (law : IsTraversal core) where
  procs-Lowers :
      (arities : List ℕ) (i : ℕ) (ps : List GenProc)
      → EachFrom (Source arities) i ps
      → All (Fit lowering) (flat (λ (p : GenProc). donors_in (each_expression core p.body)) ps)
  unfolding flat EachFrom
  procs-Lowers arities i [] h = tt
  procs-Lowers arities i (p ∷ ps) h =
      All-append (Fit lowering) (donors_in (each_expression core p.body)) _
        (donors_in-Fit _ (
          lowered (each_expression core p.body)
            (each_expression-Fit (CallsUp arities i) Unit core law (arg_env p.args) p.body h.0)))
        (procs-Lowers arities (suc i) ps h.1)
    where
      lowered :
          (es : List Expr)
          → All (Fit (unscoped (CallsUp arities i) Unit)) es
          → All (Fit lowering) es
      lowered [] k = tt
      lowered (e ∷ es) k = (
        Fit-carry (CallsUp arities i) (λ f n. Unit) (λ f n l. tt) (λ x. Unit) (λ x. Unit) e
            (λ x l. l) k.0,
        lowered es k.1,
      )

  pub harvest-Fit :
      (gen : GenProgram) (arities : List ℕ)
      → EachFrom (Source arities) 0 gen.procs
      → All (Fit lowering) (harvest core gen)
  unfolding harvest
  harvest-Fit gen arities h = procs-Lowers arities 0 gen.procs h

  pub mutate_proc-Mutant :
      (arities : List ℕ) (i : ℕ) (ctx : Ctx) (p : GenProc)
      → IsTraversal ctx.core
      → All (λ (c : Callable). CallsUp arities i c.name c.arity) ctx.callable
      → All (Fit lowering) ctx.donors
      → Source arities i p
      → Yields (λ p'. Mutant arities i p' × (p'.args ≡ p.args)) (mutate_proc core ctx p)
  unfolding mutate_proc
  mutate_proc-Mutant arities i ctx p ok may donated h =
      Yields-bind (Ends calls bare builtins E) _ _ _
        (Yields-in_scope E (λ out. (λ x. Unit)) (Ends calls bare builtins E) (arg_vars p.args) _
          (arg_vars-Seen p.args)
          (Makes-bind E (after_all E) (StmtsFit calls bare E) _ (Ends calls bare builtins E) _ _
            (mutate_statements-Fit calls Unit bare builtins ctx ok may donated E E false p.body _
              (λ x l. l)
              (steps_of-Fit calls Unit bare builtins ctx ok may donated E false p.body h))
            (λ body k.
              Makes-weaken (after_all E body) (λ out. after_all E body) (λ out. (λ x. Unit))
                (Ends calls bare builtins E) _ _ (λ out l. l) (λ out l x m. tt)
                (close_with_return-Fit calls bare builtins E body k))))
        (λ body k. Yields-pure _ (record p { body = body }) (k, refl))
    where
      E : Env
      E = arg_env p.args

      calls : Calls
      calls = CallsUp arities i

      bare : Type 0
      bare = false ≡ true

      builtins : (f : Text) (n : ℕ) → proc_index f ≡ none → CallsUp arities i f n
      builtins = CallsUp-builtin arities i

  -- The procedures from the index `i` on, all legal and with the arities that they had.
  abbrev pub Mutants : List ℕ → ℕ → List GenProc → List GenProc → Type 0
  Mutants arities i ps out = EachFrom (Mutant arities) i out × (arities_of out ≡ arities_of ps)

  pub mutate_procs-Mutants :
      (arities : List ℕ) (donors : List Expr) (rate : ℕ × ℕ) (i : ℕ) (ps : List GenProc)
      → All (Fit lowering) donors
      → Suffix arities i ps
      → EachFrom (Source arities) i ps
      → Yields (Mutants arities i ps) (mutate_procs core donors rate i ps)
  unfolding mutate_procs EachFrom arities_of
  mutate_procs-Mutants arities donors rate i [] d s h =
      Yields-pure (Mutants arities i []) [] (tt, refl)
  mutate_procs-Mutants arities donors rate i (p ∷ ps) d s h =
      let later = Suffix-next arities i p ps s in
      Yields-then (Mutants arities i (p ∷ ps)) _ _ (λ u.
        Yields-bind (λ p'. Mutant arities i p' × (p'.args ≡ p.args)) (Mutants arities i (p ∷ ps)) _
          _
          (mutate_proc-Mutant arities i _ p law
            (callables_from-CallsUp arities i (suc i) ps (omega arith) later) d h.0)
          (λ p' k.
            Yields-bind (Mutants arities (suc i) ps) (Mutants arities i (p ∷ ps)) _ _
              (mutate_procs-Mutants arities donors rate (suc i) ps d later h.1)
              (λ out l.
                Yields-pure (Mutants arities i (p ∷ ps)) (p' ∷ out)
                  ((k.0, l.0), ap₂ (λ a as'. a ∷ as') (ap length k.1) l.1))))
