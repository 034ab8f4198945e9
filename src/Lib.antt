-- ===== src/Lib.antt =====
-- A model of mog-jit's TypeScript tooling: the differential fuzzer under fuzz/ts, and parts of the
-- benchmark under bench/ts. The fuzzer mutates programs of the DSL, drops those whose answer the
-- language leaves open, evaluates the rest from their syntax trees (fuzz/ts/eval/ast-eval.ts), and
-- compares that answer with those of a bytecode VM and of the Thumb code that the C++ translator
-- emits, which runs under an emulator (fuzz/ts/lib/batch.ts, fuzz/src/qemu-exec/exec_runner.cpp).
--
-- Which file models what:
--   Prelude      shared names: Boolean tests on native numbers, lists, texts, 32-bit words.
--   Ast          the syntax trees. The node types are declared in the package mog-core, which is no
--                part of the repository; the constructors are those that fuzz/ts/gen/minimize.ts,
--                walk.ts, print.ts and fuzz/ts/eval/ast-eval.ts construct and take apart.
--   Eval         fuzz/ts/eval/ast-eval.ts. Types: promote, usual, narrow, literalType. Scope: class
--                Scope. Machine: the class's state, its exceptions as values, tick, runExt. Ops:
--                typeOf, binary, call's builtins. Exprs: eval. Stmts: statement, run, switchOn,
--                runProc and evaluate. The other children hold proofs.
--   RawMem       fuzz/ts/lib/rawmem_ext.ts, the extension with a buffer of 1024 bytes. Bytes: at,
--                load, store. Loops: MEMMOVE, MEMCMP, SLICECMP. Exec: EFFECTS, exec and the codec.
--   Core         mog-core's recurseOver and mapOver, as the parameter Traversal of what uses them,
--                with IsTraversal, what the code relies on.
--   Walk         fuzz/ts/gen/walk.ts, the walks over statements as lists of what they visit. Subs:
--                the walk over sub-expressions.
--   Corpus       fuzz/ts/gen/corpus.ts: procName, calleesOf, checkGraph. Its children hold proofs.
--   Ub           fuzz/ts/gen/ub.ts: the effects of an expression, conflict, analyzeExpr and
--                analyzeBody. Graph: summarize and analyze.
--   Mutate       fuzz/ts/gen/mutate.ts. Machine: a context's state and its draws. Exprs: shiftSafe,
--                leaf, build, rebind, mutateExpr. Stmts: declare, emptyIf, sideEffect, countedLoop,
--                countedDoWhile, switchOver, wrap. Clauses: how a switch's clauses change. Walk:
--                mutateStatements and mutateStatement. Program: closeWithReturn, harvest, mutate,
--                mutateSequenced, inflate, callDepthReached, nestDepth. Fit, Scope and Legal say what
--                is legal; the other children hold proofs.
--   Rng          fuzz/ts/gen/rng.ts, its state passed along. An array that an exchange out of range
--                would leave with an `undefined` is none.
--   Batch        fuzz/ts/lib/batch.ts (chunk, writeBatch), fuzz/ts/lib/entry_args.ts. Reader: the
--                walk of exec_runner.cpp's main over the batch window, with constants of its own.
--   Median5      bench/ts/lib/workloads/median5.ts: the sorting network and `reference`, on 16-bit
--                cells. Sorts: its proofs, by keys that order the cells as signed numbers.
--   SampStream   bench/ts/lib/sampstream_ext.ts: the state, exec, reset and packEvent.
--
-- How they interact: Eval takes an extension as a parameter (Machine.Extension, the opcode's name,
-- the operand stack and acc), and RawMem.Exec.rawmem_extension is the one that the fuzzer gives it.
-- Mutate draws from Rng, collects names and donors by Walk, names procedures as Corpus does, and
-- retries until Ub finds no race.
-- Batch.Reader stands for the other end of the file that Batch writes.
--
-- State and errors: the class Machine is a record that every operation takes and returns (a monad
-- with and_then), the extension's buffer is its field `store`, and each JavaScript exception is a
-- value of Exn. A scope is the list of its frames, innermost first. The mutator's steps are
-- functions of its context's counters and names (Machine.Gen) and of the variables in scope
-- (Stmts.Site); a child scope drops the variables that it adds.
--
-- Bounds and fuel: a word is a native number below 2 ^ 32 and each `>>> 0` is `% 2 ^ 32`. Loops and
-- calls of the evaluator run on maxSteps + 1 of fuel, which is enough because every round and every
-- call goes through tick, and tick throws once the steps exceed maxSteps. Everything else is
-- structural recursion, but for the walks through Traversal, whose fuel is the levels of the
-- expression (Core.levels), and for the loops over taken names and labels, whose fuel is how many are
-- taken. The walk over the batch recurses on the count, and `end - cursor` is the
-- length of the rest of the window.
--
-- What is not modelled: mog-core's parser, validator, lowerer and VM (a package); the C++ compiler
-- and runtime; the processes that the scripts start and the files that they read; rawmem_ext.ts's
-- tiling rules, which build nodes for mog-core's rule engine. Rng.int takes its product as exact,
-- which a double's is for a bound up to 2 ^ 21. A Literal keeps its value without its source slice. A
-- probability of the mutator is a fraction.
pub mod Prelude
pub mod Ast
pub mod Core
pub mod Corpus
pub mod Mutate
pub mod Eval
pub mod RawMem
pub mod Walk
pub mod Ub
pub mod Rng
pub mod Batch
pub mod Median5
pub mod SampStream
