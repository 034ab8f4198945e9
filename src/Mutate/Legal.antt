-- ===== src/Mutate/Legal.antt =====
-- mutate.ts: the four invariants that its head names, as predicates. A call targets a higher procedure, with as many
-- arguments as that has parameters; no `return` is bare and every body is closed; a `break` ends a
-- case; and no operator divides.
use mog_jit.Prelude.{
  ℕ, suc, ◌<◌, ◌≡◌, true, false, List, [], ◌∷◌, Option, none, some, length, get_elem?,
}
use mog_jit.Prelude.Text.{Text}
use mog_jit.Ast.{Stmts, GenProc}
use mog_jit.Eval.Ops.{proc_index}
use mog_jit.Mutate.Clauses.{last_of}
use mog_jit.Mutate.Program.{is_closed}
use mog_jit.Mutate.Scope.{Env, Calls, with_name, StmtsFit}

unfoldable pub arities_of : List GenProc → List ℕ
arities_of [] = []
arities_of (p ∷ ps) = length p.args ∷ arities_of ps

abbrev Reaches : List ℕ → ℕ → ℕ → Option ℕ → Type 0
Reaches arities i n none = Unit
Reaches arities i n (some j) = (i < j) × (get_elem? arities j ≡ some n)

-- What procedure `i` may call: one above it with this arity, or a name that is no procedure's.
unfoldable pub CallsUp : List ℕ → ℕ → Calls
unfolding proc_index
CallsUp arities i f n = Reaches arities i n (proc_index f)

unfoldable pub arg_env : List Text → Env
arg_env [] = λ x. false ≡ true
arg_env (y ∷ ys) = with_name (arg_env ys) y

-- A body that is to be mutated may have a bare `return`, and need not be closed.
abbrev pub Source : List ℕ → ℕ → GenProc → Type 0
Source arities i p = StmtsFit (CallsUp arities i) Unit (arg_env p.args) p.body

abbrev pub Closed : Stmts → Type 0
Closed body = is_closed (last_of body) ≡ true

abbrev pub Mutant : List ℕ → ℕ → GenProc → Type 0
Mutant arities i p =
    StmtsFit (CallsUp arities i) (false ≡ true) (arg_env p.args) p.body × Closed p.body

-- Each procedure from the index `i` on.
unfoldable pub EachFrom : (ℕ → GenProc → Type 0) → ℕ → List GenProc → Type 0
EachFrom P i [] = Unit
EachFrom P i (p ∷ ps) = P i p × EachFrom P (suc i) ps

abbrev pub LegalSource : List GenProc → Type 0
LegalSource procs = EachFrom (Source (arities_of procs)) 0 procs

abbrev pub LegalMutant : List GenProc → Type 0
LegalMutant procs = EachFrom (Mutant (arities_of procs)) 0 procs

-- With an entry.
abbrev pub LegalGraph : List GenProc → Type 0
LegalGraph procs = (0 < length procs) × LegalMutant procs
