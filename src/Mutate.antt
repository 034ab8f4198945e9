-- ===== src/Mutate.antt =====
-- fuzz/ts/gen/mutate.ts: the scoped rewrite walk that makes a program's mutants.
pub mod Machine
pub mod Exprs
pub mod Stmts
pub mod Clauses
pub mod Walk
pub mod Program
pub mod Yields
pub mod Fit
mod ExprsFit
mod RebindFit
mod GraftFit
pub mod Scope
mod Weaken
mod Makes
mod MadeFit
mod ClausesFit
mod RoundsFit
mod WalkFit
mod BodiesFit
mod StmtsFit
mod Visited
pub mod Legal
mod ProcsFit
mod GrowFit
mod GraphFit
pub mod Mutants
mod Sequenced
mod Depth
mod Enough
pub mod Names
mod Tests
pub mod InflateFit
