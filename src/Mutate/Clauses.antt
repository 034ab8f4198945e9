-- ===== src/Mutate/Clauses.antt =====
-- mutate.ts: how `mutateStatement` adds, opens and removes the clauses of a switch.
use mog_jit.Prelude.{
  ℕ, zero, suc, ◌+◌, Bool, true, false, ◌&&◌, ◌||◌, not, List, [], ◌∷◌, Option, none, some, length,
  get_elem?, ltb, leb, ◌==◌, if◌then◌else◌,
}
use mog_jit.Prelude.Text.{codes, text_eq}
use mog_jit.Ast.{
  Expr, literal, call, Stmt, break_stmt, expression, return_stmt, Stmts, stop, next, Cases, no_case,
  clause,
}
use mog_jit.Core.{◌>>=◌, ◌>>◌, pure}
use mog_jit.Mutate.Machine.{Var, G, perhaps, count_applied}
use mog_jit.Mutate.Exprs.{lit, Ctx, rate_times}
use mog_jit.Mutate.Stmts.{single, side_effect}

-- A `SwitchCase`, whose test is null in the default.
pub record Clause : Type 0 where
  pub test : Option Expr
  pub consequent : Stmts

unfoldable pub cases_of : List Clause → Cases
cases_of [] = no_case
cases_of (c ∷ cs) = clause c.test c.consequent (cases_of cs)

unfoldable pub last_of : Stmts → Option Stmt
last_of stop = none
last_of (next s stop) = some s
last_of (next s (next t ts)) = last_of (next t ts)

-- `slice(0, -1)`.
unfoldable pub all_but_last : Stmts → Stmts
all_but_last stop = stop
all_but_last (next s stop) = stop
all_but_last (next s (next t ts)) = next s (all_but_last (next t ts))

unfoldable pub count_stmts : Stmts → ℕ
count_stmts stop = 0
count_stmts (next s ss) = suc (count_stmts ss)

unfoldable pub is_trap : Expr → Bool
is_trap (call f args) = text_eq f (codes "trap")
is_trap e = false

-- Does a clause that ends so run on into the next one?
unfoldable pub runs_on : Option Stmt → Bool
unfolding is_trap
runs_on none = true
runs_on (some break_stmt) = false
runs_on (some (return_stmt e)) = false
runs_on (some (expression e)) = not (is_trap e)
runs_on (some s) = true

unfoldable pub falls_into : Clause → Bool
unfolding runs_on last_of
falls_into c = runs_on (last_of c.consequent)

unfoldable pub is_default : Clause → Bool
is_default c = elim c.test [ none ↦ true | some e ↦ false ]

unfoldable pub label_of : Option Expr → Option ℕ
label_of (some (literal v)) = some v
label_of _ = none

abbrev same_label : ℕ → Option ℕ → Bool
same_label n none = false
same_label n (some v) = n == v

unfoldable pub has_label : ℕ → List Clause → Bool
unfolding label_of
has_label n [] = false
has_label n (c ∷ cs) = same_label n (label_of c.test) || has_label n cs

-- The loop over the labels that are taken: as many steps as there are clauses are enough.
unfoldable pub unused_label : ℕ → ℕ → List Clause → ℕ
unfolding has_label
unused_label zero n cs = n
unused_label (suc fuel) n cs =
    let later = unused_label fuel (suc n) cs in if has_label n cs then later else n

-- `findIndex(c => c.test === null)`, or the end.
unfoldable pub default_at : List Clause → ℕ
unfolding is_default
default_at [] = 0
default_at (c ∷ cs) = let rest = suc (default_at cs) in if is_default c then 0 else rest

unfoldable pub insert_at : ℕ → Clause → List Clause → List Clause
insert_at zero x cs = x ∷ cs
insert_at (suc i) x [] = x ∷ []
insert_at (suc i) x (c ∷ cs) = c ∷ insert_at i x cs

unfoldable pub remove_at : ℕ → List Clause → List Clause
remove_at i [] = []
remove_at zero (c ∷ cs) = cs
remove_at (suc i) (c ∷ cs) = c ∷ remove_at i cs

-- Does the clause before this index run on?
unfoldable pub entered : ℕ → List Clause → Bool
unfolding falls_into
entered zero cs = false
entered (suc i) cs = elim (get_elem? cs i) [ none ↦ false | some c ↦ falls_into c ]

unfoldable pub with_case : Clause → List Clause → List Clause
unfolding default_at insert_at entered
with_case c cs = if entered (default_at cs) cs then cs else insert_at (default_at cs) c cs

abbrev pub new_clause : List Clause → Stmt → Clause
new_clause cs s = record {
  test = some (lit (unused_label (length cs) 0 cs));
  consequent = next s (single break_stmt);
}

unfoldable pub add_case : Ctx → List Var → List Clause → G (List Clause)
unfolding count_applied side_effect unused_label with_case
add_case ctx vars cs = do
  b ← rate_times ctx 40
  if b
      then count_applied >> (side_effect vars >>= λ s. pure (with_case (new_clause cs s) cs))
      else pure cs

-- Is the label of the one the other's successor?
unfoldable pub follows : Option ℕ → Option ℕ → Bool
follows (some v) (some w) = w == v + 1
follows _ _ = false

-- May this clause lose its closer, before that one?
unfoldable pub may_open : Clause → Clause → Bool
unfolding is_default count_stmts falls_into label_of follows
may_open c d =
    not (is_default c)
    && leb 2 (count_stmts c.consequent)
    && not (falls_into c)
    && (is_default d || follows (label_of c.test) (label_of d.test))

-- The indices, from `at` on, of the clauses that may be opened.
unfoldable pub opens : ℕ → List Clause → List ℕ
unfolding may_open
opens at [] = []
opens at (c ∷ []) = []
opens at (c ∷ d ∷ cs) =
    let rest = opens (suc at) (d ∷ cs) in if may_open c d then at ∷ rest else rest

unfoldable pub opened_at : ℕ → List Clause → List Clause
unfolding all_but_last
opened_at i [] = []
opened_at zero (c ∷ cs) = record c { consequent = all_but_last c.consequent } ∷ cs
opened_at (suc i) (c ∷ cs) = c ∷ opened_at i cs

abbrev counted_with : {A : Type 0} → A → G A
counted_with a = count_applied >> pure a

abbrev pub chosen : List Clause → (ℕ → List Clause → List Clause) → Option ℕ → G (List Clause)
chosen cs change none = pure cs
chosen cs change (some i) = counted_with (change i cs)

unfoldable pub open_case : Ctx → List Clause → G (List Clause)
unfolding count_applied opens opened_at
open_case ctx cs = do
  b ← rate_times ctx 30
  if b then (do i ← perhaps (opens 0 cs); chosen cs opened_at i) else pure cs

unfoldable pub count_labelled : List Clause → ℕ
unfolding is_default
count_labelled [] = 0
count_labelled (c ∷ cs) = let rest = count_labelled cs in if is_default c then rest else suc rest

-- The indices, from `at` on, of the clauses that may go; `before` tells whether the one before this
-- runs on.
unfoldable pub removable : Bool → Bool → ℕ → List Clause → List ℕ
unfolding is_default falls_into
removable many before at [] = []
removable many before at (c ∷ cs) =
    let rest = removable many (falls_into c) (suc at) cs in
    if (is_default c || many) && not before then at ∷ rest else rest

unfoldable pub remove_case : Ctx → List Clause → G (List Clause)
unfolding count_applied count_labelled removable remove_at
remove_case ctx cs = do
  b ← rate_times ctx 20
  if b
      then (perhaps (removable (ltb 1 (count_labelled cs)) false 0 cs) >>= λ i.
          chosen cs remove_at i)
      else pure cs

-- The three, in the source's order.
unfoldable pub change_cases : Ctx → List Var → List Clause → G (List Clause)
unfolding add_case open_case remove_case
change_cases ctx vars cs = do
  added ← add_case ctx vars cs
  opened ← open_case ctx added
  remove_case ctx opened
