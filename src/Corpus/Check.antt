-- ===== src/Corpus/Check.antt =====
-- corpus.ts: `calleesOf` against the calls in the tree, and what `checkGraph` accepts.
use mog_jit.Prelude.{ℕ, suc, ◌<◌, ◌≤◌, List, [], ◌∷◌, Option, none, some, All}
use mog_jit.Ast.{GenProc}
use mog_jit.Core.{Traversal}
use mog_jit.Walk.Subs.{each_expression}
use mog_jit.Corpus.{callee}

-- Strictly ascending, and above a bound.
abbrev pub AscendsFrom : ℕ → List ℕ → Type 0
AscendsFrom b [] = Unit
AscendsFrom b (n ∷ ns) = (b ≤ n) × AscendsFrom (suc n) ns

module _ (P : ℕ → Type 0) where
  -- Of a call of a procedure, that its index has the property.
  abbrev pub OfCallee : Option ℕ → Type 0
  OfCallee none = Unit
  OfCallee (some c) = P c

-- A call from procedure `i` that `checkGraph` lets pass, among `count` procedures.
abbrev pub Upward : ℕ → ℕ → ℕ → Type 0
Upward count i c = (i < c) × (c < count)

module _ {S : Type 0} (core : Traversal S) where
  -- In every procedure from index `i` on, each call of a procedure is upward.
  abbrev pub EachUpward : ℕ → ℕ → List GenProc → Type 0
  EachUpward count i [] = Unit
  EachUpward count i (p ∷ ps) =
      All (λ e. OfCallee (Upward count i) (callee e)) (each_expression core p.body)
      × EachUpward count (suc i) ps
