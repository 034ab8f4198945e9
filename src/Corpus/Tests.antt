-- ===== src/Corpus/Tests.antt =====
-- The procedure graph of a small program.
use mog_jit.Prelude.{ℕ, [], ◌∷◌, some}
use mog_jit.Prelude.Text.{codes}
use mog_jit.Ast.{
  add, literal, ident, binary, call, nil, cons, Stmts, expression, return_stmt, stop, next,
  GenProgram,
}
use mog_jit.Core.{Traversal, direct, rebuilt}

abbrev plain_core : Traversal ℕ
plain_core = record { children = direct; map_over = rebuilt }

-- `p2(p1(3) + p2(a)); return p1(a);`
abbrev calls_body : Stmts
calls_body =
    next
      (expression (
        call (codes "p2") (
          cons
            (binary add (call (codes "p1") (cons (literal 3) nil))
              (call (codes "p2") (cons (ident (codes "a")) nil)))
            nil)))
      (next (return_stmt (some (call (codes "p1") (cons (ident (codes "a")) nil)))) stop)

-- The second procedure calls itself, and there is no third.
abbrev cyclic : GenProgram
cyclic = record {
  procs =
      record { args = codes "a" ∷ []; body = calls_body }
      ∷ record { args = codes "a" ∷ []; body = calls_body }
      ∷ [];
}
