-- ===== src/Mutate/Sequenced.antt =====
-- mutate.ts, `mutateSequenced`: the first attempt that the filter passes.
use mog_jit.Prelude.{
  ℕ, zero, suc, ◌+◌, ◌<◌, ◌≡◌, refl, arith, Bool, true, false, List, All, Option, none, some,
  length, Bool-cases, inl, inr,
}
use mog_jit.Prelude.Word.{to_u32}
use mog_jit.Ast.{Expr, GenProgram}
use mog_jit.Core.{Traversal, IsTraversal}
use mog_jit.Rng.{imul}
use mog_jit.Ub.Graph.{unsequenced}
use mog_jit.Mutate.Machine.{Gen}
use mog_jit.Mutate.Fit.{Fit, lowering}
use mog_jit.Mutate.Program.{mutate, first_sequenced, mutate_sequenced}
use mog_jit.Mutate.Legal.{LegalSource, LegalGraph}
use mog_jit.Mutate.Mutants.{mutate-LegalGraph}

module _ (core : Traversal Gen) (candidate : ℕ → GenProgram) where
  abbrev pub Races : GenProgram → Bool → Type 0
  Races gen b = unsequenced core gen ≡ b

  -- Of the attempts `attempt`, ..., `attempt + more - 1`, all before the answer race, and it does not;
  -- with no answer, all of them race.
  unfoldable pub Found : ℕ → ℕ → Option GenProgram → Type 0
  Found more attempt none = (k : ℕ) → k < more → Races (candidate (attempt + k)) true
  Found more attempt (some out) =
      (k : ℕ) × (k < more)
      × (out ≡ candidate (attempt + k))
      × Races out false
      × ((j : ℕ) → j < k → Races (candidate (attempt + j)) true)

  -- An attempt that races comes before the others.
  earlier :
      (attempt : ℕ) (P : ℕ → Type 0)
      → P attempt
      → (k : ℕ) → ((j : ℕ) → j < k → P (suc attempt + j))
      → (j : ℕ) → j < suc k
      → P (attempt + j)
  earlier attempt P h k l zero b = let here : attempt + 0 ≡ attempt = omega arith in rw here h
  earlier attempt P h k l (suc j) b =
      let move : attempt + suc j ≡ suc attempt + j = omega arith in rw move (l j (omega arith))

  Found-earlier :
      (more attempt : ℕ) (r : Option GenProgram)
      → Races (candidate attempt) true
      → Found more (suc attempt) r
      → Found (suc more) attempt r
  unfolding Found
  Found-earlier more attempt none h f = earlier attempt (λ k. Races (candidate k) true) h more f
  Found-earlier more attempt (some out) h f =
      let move : attempt + suc f.0 ≡ suc attempt + f.0 = omega arith in
      (
        suc f.0,
        omega (arith, f.1),
        rw move f.2,
        f.3,
        earlier attempt (λ k. Races (candidate k) true) h f.0 f.4,
      )

  pub first_sequenced-Found :
      (more attempt : ℕ) → Found more attempt (first_sequenced core candidate more attempt)
  unfolding first_sequenced Found
  first_sequenced-Found zero attempt = λ k h. absurd (omega arith)
  first_sequenced-Found (suc more) attempt =
      elim (Bool-cases (unsequenced core (candidate attempt))) [
        | inl e ↦ rw e (
            Found-earlier more attempt (first_sequenced core candidate more (suc attempt)) e
              (first_sequenced-Found more (suc attempt)))
        | inr e ↦
            let here : attempt + 0 ≡ attempt = omega arith in
            rw e (zero, omega arith, rw here refl, e, (λ j h. absurd (omega arith)))
      ]

-- The mutant that `mutateSequenced` gives is that of the first of the six derived seeds whose mutant has
-- no unsequenced operands, so that it has none itself; where it gives none, each of the six has some.
pub mutate_sequenced-Found :
    (core : Traversal Gen) (gen : GenProgram) (seed : ℕ) (rate : ℕ × ℕ) (donors : List Expr)
    → Found core
        (λ attempt. mutate core gen (to_u32 (imul seed 0x9e3779b1 + attempt)) rate donors)
        6
        0
        (mutate_sequenced core gen seed rate donors)
unfolding mutate_sequenced
mutate_sequenced-Found core gen seed rate donors = first_sequenced-Found core _ 6 0

-- Like every mutant, one without unsequenced operands is legal where the program is.
pub mutate_sequenced-LegalGraph :
    (core : Traversal Gen) (law : IsTraversal core) (gen out : GenProgram) (seed : ℕ) (rate : ℕ × ℕ)
    (donors : List Expr)
    → 0 < length gen.procs
    → LegalSource gen.procs
    → All (Fit lowering) donors
    → mutate_sequenced core gen seed rate donors ≡ some out
    → LegalGraph out.procs × (unsequenced core out ≡ false)
unfolding Found
mutate_sequenced-LegalGraph core law gen out seed rate donors pos h d e =
    let found : Found core
        (λ attempt. mutate core gen (to_u32 (imul seed 0x9e3779b1 + attempt)) rate donors) 6 0
        (some out) =
      rw e at (mutate_sequenced-Found core gen seed rate donors) in
    (rw found.2 (mutate-LegalGraph core law gen _ rate donors pos h d), found.3)
