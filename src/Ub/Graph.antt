-- ===== src/Ub/Graph.antt =====
-- fuzz/ts/gen/ub.ts: the summaries of a program's procedures, and the filter over the whole of it.
use mog_jit.Prelude.{
  ℕ, suc, Bool, true, false, ◌||◌, List, [], ◌∷◌, Option, none, some, ◌==◌, if◌then◌else◌,
}
use mog_jit.Ast.{Stmts, GenProc, GenProgram}
use mog_jit.Core.{Traversal}
use mog_jit.Corpus.{callees_of}
use mog_jit.Ub.{write, Effects, stronger_mem, Summary, Summaries, analyze_body}

abbrev pub no_summaries : Summaries
no_summaries i = none

-- `summaries.set(i, s)`.
unfoldable pub with_entry : ℕ → Summary → Summaries → Summaries
with_entry i s summaries j = if j == i then some s else summaries j

-- What the body's own expressions do; a conflict among them stands for the worst.
unfoldable pub own_summary : Option Effects → Summary
own_summary none = record { mem = write; terminates = true }
own_summary (some e) = record { mem = e.mem; terminates = e.terminates }

unfoldable pub joined : Summary → Option Summary → Summary
unfolding stronger_mem
joined s none = s
joined s (some c) = record {
  mem = stronger_mem s.mem c.mem;
  terminates = s.terminates || c.terminates;
}

unfoldable pub with_callees : Summaries → Summary → List ℕ → Summary
unfolding joined
with_callees summaries s [] = s
with_callees summaries s (c ∷ cs) = with_callees summaries (joined s (summaries c)) cs

module _ {S : Type 0} (core : Traversal S) where
  unfoldable pub summary_of : Summaries → Stmts → Summary
  unfolding with_callees own_summary analyze_body callees_of
  summary_of summaries body =
      with_callees summaries (own_summary (analyze_body summaries body)) (callees_of core body)

  -- `summarize`, of the procedures from `i` on: the last one is summarised first.
  unfoldable pub summarize_from : ℕ → List GenProc → Summaries
  unfolding summary_of with_entry
  summarize_from i [] = no_summaries
  summarize_from i (p ∷ ps) =
      let later = summarize_from (suc i) ps in with_entry i (summary_of later p.body) later

  abbrev pub summarize : GenProgram → Summaries
  summarize gen = summarize_from 0 gen.procs

  unfoldable pub some_unsequenced : Summaries → List GenProc → Bool
  unfolding analyze_body
  some_unsequenced summaries [] = false
  some_unsequenced summaries (p ∷ ps) = elim (analyze_body summaries p.body) [
    | none ↦ true
    | some e ↦ some_unsequenced summaries ps
  ]

  -- `analyze(gen).unsequenced`.
  unfoldable pub unsequenced : GenProgram → Bool
  unfolding some_unsequenced summarize_from
  unsequenced gen = some_unsequenced (summarize gen) gen.procs
