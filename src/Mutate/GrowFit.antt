-- ===== src/Mutate/GrowFit.antt =====
-- mutate.ts, `mutate`: lemmas on the procedure that a graph grows by.
use mog_jit.Prelude.{
  ℕ, zero, suc, ◌+◌, ◌<◌, ◌≡◌, refl, sym, ap, subst, ◌∙◌, arith, true, false, ◌&&◌, List, [], ◌∷◌,
  ◌++◌, Option, none, some, length, get_elem?, ltb,
}
use mog_jit.Prelude.Text.{Text}
use mog_jit.Ast.{Expr, call, Exprs, Stmt, expression, return_stmt, Stmts, stop, next, GenProc}
use mog_jit.Eval.Ops.{proc_index}
use mog_jit.Rng.Draws.{int-lt}
use mog_jit.Corpus.{proc_name}
use mog_jit.Mutate.Machine.{below}
use mog_jit.Mutate.Exprs.{arity_of}
use mog_jit.Mutate.Fit.{Policy, Fit, FitAll}
use mog_jit.Mutate.Stmts.{single}
use mog_jit.Mutate.Clauses.{last_of}
use mog_jit.Mutate.Program.{is_closed, arg_vars, fresh_names, prepend_to, args_of, grow, maybe_grow}
use mog_jit.Mutate.Yields.{Yields, Yields-pure, Yields-if, Yields-bind, Yields-then}
use mog_jit.Mutate.ExprsFit.{build-Fit, build_args-Fit}
use mog_jit.Mutate.Scope.{Calls, introduced, after_decls, after, fitting, StmtFit}
use mog_jit.Mutate.Weaken.{MayCallMore, StmtsFit-carry}
use mog_jit.Mutate.Legal.{
  arities_of, CallsUp, arg_env, Closed, Mutant, LegalMutant, LegalGraph, EachFrom,
}
use mog_jit.Mutate.ProcsFit.{CallsUp-builtin, CallsUp-proc_name, arg_vars-Seen}

get_elem?-append :
    (xs ys : List ℕ) (i n : ℕ) → get_elem? xs i ≡ some n → get_elem? (xs ++ ys) i ≡ some n
get_elem?-append [] ys i n h = cc
get_elem?-append (x ∷ xs) ys zero n h = h
get_elem?-append (x ∷ xs) ys (suc i) n h = get_elem?-append xs ys i n h

get_elem?-last :
    (ps : List GenProc) (n : ℕ) → get_elem? (arities_of ps ++ (n ∷ [])) (length ps) ≡ some n
unfolding arities_of
get_elem?-last [] n = refl
get_elem?-last (p ∷ ps) n = get_elem?-last ps n

CallsUp-append :
    (arities more : List ℕ) (i : ℕ) → MayCallMore (CallsUp arities i) (CallsUp (arities ++ more) i)
unfolding CallsUp
CallsUp-append arities more i f n h = by_index (proc_index f) refl h
  where
    by_index :
        (j : Option ℕ) → proc_index f ≡ j → CallsUp arities i f n → CallsUp (arities ++ more) i f n
    by_index none e h = rw e tt
    by_index (some j) e h = let k = rw e at h in rw e (k.0, get_elem?-append arities more j n k.1)

EachFrom-map :
    (P Q : ℕ → GenProc → Type 0) (i : ℕ) (ps : List GenProc)
    → ((j : ℕ) (p : GenProc) → P j p → Q j p)
    → EachFrom P i ps
    → EachFrom Q i ps
unfolding EachFrom
EachFrom-map P Q i [] k h = tt
EachFrom-map P Q i (p ∷ ps) k h = (k i p h.0, EachFrom-map P Q (suc i) ps k h.1)

EachFrom-snoc :
    (P : ℕ → GenProc → Type 0) (i : ℕ) (ps : List GenProc) (q : GenProc)
    → EachFrom P i ps
    → P (i + length ps) q
    → EachFrom P i (ps ++ (q ∷ []))
unfolding EachFrom
EachFrom-snoc P i [] q h k = let here : i + 0 ≡ i = omega arith in (rw here at k, tt)
EachFrom-snoc P i (p ∷ ps) q h k =
    let move : i + suc (length ps) ≡ suc i + length ps = omega arith in
    (h.0, EachFrom-snoc P (suc i) ps q h.1 (rw move at k))

Closed-next : (s : Stmt) (body : Stmts) → Closed body → Closed (next s body)
unfolding is_closed last_of
Closed-next s stop h = cc
Closed-next s (next t ts) h = h

prepend_to-Mutant :
    (arities : List ℕ) (i from : ℕ) (s : Stmt) (ps : List GenProc)
    → introduced s ≡ []
    → ((p : GenProc)
        → get_elem? ps from ≡ some p
        → StmtFit (CallsUp arities (i + from)) (false ≡ true) (arg_env p.args) s)
    → EachFrom (Mutant arities) i ps
    → EachFrom (Mutant arities) i (prepend_to from s ps)
unfolding prepend_to EachFrom StmtFit after after_decls
prepend_to-Mutant arities i zero s [] q k h = tt
prepend_to-Mutant arities i (suc from) s [] q k h = tt
prepend_to-Mutant arities i zero s (p ∷ ps) q k h =
    let here : i + 0 ≡ i = omega arith in
    (((rw here at (k p refl), rw q h.0.0), Closed-next s p.body h.0.1), h.1)
prepend_to-Mutant arities i (suc from) s (p ∷ ps) q k h =
    let move : i + suc from ≡ suc i + from = omega arith in
    (h.0, prepend_to-Mutant arities (suc i) from s ps q (λ p' e. rw move at (k p' e)) h.1)

arities_of-prepend_to :
    (from : ℕ) (s : Stmt) (ps : List GenProc) → arities_of (prepend_to from s ps) ≡ arities_of ps
unfolding arities_of prepend_to
arities_of-prepend_to zero s [] = refl
arities_of-prepend_to (suc from) s [] = refl
arities_of-prepend_to zero s (p ∷ ps) = refl
arities_of-prepend_to (suc from) s (p ∷ ps) =
    ap (λ l. length p.args ∷ l) (arities_of-prepend_to from s ps)

arities_of-snoc :
    (ps : List GenProc) (q : GenProc)
    → arities_of (ps ++ (q ∷ [])) ≡ arities_of ps ++ (length q.args ∷ [])
unfolding arities_of
arities_of-snoc [] q = refl
arities_of-snoc (p ∷ ps) q = ap (λ l. length p.args ∷ l) (arities_of-snoc ps q)

fresh_names-length : (prefix : Text) (n : ℕ) → Yields (λ xs. length xs ≡ n) (fresh_names prefix n)
unfolding fresh_names
fresh_names-length prefix zero = Yields-pure _ [] refl
fresh_names-length prefix (suc n) = Yields-then _ _ _ (λ x.
    Yields-bind (λ xs. length xs ≡ n) _ _ _ (fresh_names-length prefix n)
      (λ xs h. Yields-pure _ (x ∷ xs) (ap suc h)))

below-lt : (n : ℕ) → 0 < n → Yields (λ i. i < n) (below n)
below-lt n h = record { answer = λ g. (int-lt n g.rng h).0 }

-- The grown graph, from the parts that are drawn.
grown-Mutant :
    (procs : List GenProc) (args : List Text) (value : Expr) (from : ℕ) (passed : Exprs)
    → EachFrom (Mutant (arities_of procs)) 0 procs
    → from < length procs
    → Fit
        (fitting (CallsUp (arities_of procs ++ (length args ∷ [])) (length procs)) (arg_env args))
        value
    → arity_of passed ≡ length args
    → ((p : GenProc)
        → get_elem?
            (procs ++ (record { args = args; body = single (return_stmt (some value)) } ∷ []))
            from
          ≡ some p
        → FitAll
            (fitting (CallsUp (arities_of procs ++ (length args ∷ [])) from) (arg_env p.args))
            passed)
    → LegalMutant (
        prepend_to from
          (expression (call (proc_name (length procs)) passed))
          (procs ++ (record { args = args; body = single (return_stmt (some value)) } ∷ [])))
unfolding StmtFit Fit introduced is_closed last_of
grown-Mutant procs args value from passed h b v a w =
    let leaf : GenProc = record { args = args; body = single (return_stmt (some value)) } in
    let arities = arities_of procs ++ (length args ∷ []) in
    let same : arities_of (
          prepend_to from (expression (call (proc_name (length procs)) passed))
            (procs ++ (leaf ∷ [])))
        ≡ arities =
      arities_of-prepend_to from _ (procs ++ (leaf ∷ [])) ∙ arities_of-snoc procs leaf in
    let zero_from : 0 + from ≡ from = omega arith in
    let zero_length : 0 + length procs ≡ length procs = omega arith in
    rw same (
      prepend_to-Mutant arities 0 from _ (procs ++ (leaf ∷ [])) refl
        (λ p e. rw zero_from (
          rw a (
              CallsUp-proc_name arities from (length procs) (length args) (omega arith)
                (get_elem?-last procs (length args))),
          w p e,
        ))
        (EachFrom-snoc (Mutant arities) 0 procs leaf
          (EachFrom-map (Mutant (arities_of procs)) (Mutant arities) 0 procs
            (λ j p k. (
              StmtsFit-carry (CallsUp (arities_of procs) j) (CallsUp arities j)
                  (CallsUp-append (arities_of procs) (length args ∷ []) j) (false ≡ true)
                  (arg_env p.args) (arg_env p.args) p.body (λ x l. l) k.0,
              k.1,
            ))
            h)
          (rw zero_length ((v, tt), refl))))

prepend_to-length :
    (from : ℕ) (s : Stmt) (ps : List GenProc) (q : GenProc)
    → 0 < length (prepend_to from s (ps ++ (q ∷ [])))
unfolding prepend_to
prepend_to-length zero s [] q = omega arith
prepend_to-length (suc from) s [] q = omega arith
prepend_to-length zero s (p ∷ ps) q = omega arith
prepend_to-length (suc from) s (p ∷ ps) q = omega arith

args_of-some : (o : Option GenProc) (p : GenProc) → o ≡ some p → args_of o ≡ p.args
args_of-some o p e = rw e refl

grow-Mutant :
    (prefix : Text) (procs : List GenProc)
    → 0 < length procs
    → EachFrom (Mutant (arities_of procs)) 0 procs
    → Yields LegalGraph (grow prefix procs)
unfolding grow
grow-Mutant prefix procs pos h = Yields-then LegalGraph _ _ (λ arity.
    Yields-bind (λ xs. length xs ≡ arity) LegalGraph _ _ (fresh_names-length prefix arity)
      (λ args a.
        let calls : ℕ → Calls = CallsUp (arities_of procs ++ (length args ∷ [])) in
        let builtins : (i : ℕ) (f : Text) (n : ℕ) → proc_index f ≡ none → calls i f n =
          CallsUp-builtin (arities_of procs ++ (length args ∷ [])) in
        let leaf : Policy = fitting (calls (length procs)) (arg_env args) in
        Yields-bind (Fit leaf) LegalGraph _ _
          (build-Fit leaf (builtins (length procs)) (arg_vars args) 2 (arg_vars-Seen args))
          (λ value v.
            Yields-bind (λ i. i < length procs) LegalGraph _ _ (below-lt (length procs) pos)
              (λ from b.
                let callers = args_of (
                  get_elem?
                    (procs
                      ++ (record { args = args; body = single (return_stmt (some value)) } ∷ []))
                    from) in
                let caller : Policy = fitting (calls from) (arg_env callers) in
                Yields-bind (λ es. FitAll caller es × (arity_of es ≡ arity)) LegalGraph _ _
                  (build_args-Fit caller (builtins from) (arg_vars callers) arity
                    (arg_vars-Seen callers))
                  (λ passed k. Yields-pure LegalGraph _ (
                    prepend_to-length from _ procs _,
                    grown-Mutant procs args value from passed h b v (k.1 ∙ sym a) (λ p e.
                        subst (λ xs. FitAll (fitting (calls from) (arg_env xs)) passed)
                          (args_of-some _ p e) k.0),
                  ))))))

pub maybe_grow-Mutant :
    (prefix : Text) (procs : List GenProc)
    → 0 < length procs
    → EachFrom (Mutant (arities_of procs)) 0 procs
    → Yields LegalGraph (maybe_grow prefix procs)
unfolding maybe_grow
maybe_grow-Mutant prefix procs pos h = Yields-then LegalGraph _ _ (λ b.
    Yields-if LegalGraph (b && ltb (length procs) 8) _ _ (grow-Mutant prefix procs pos h)
      (Yields-pure LegalGraph procs (pos, h)))
