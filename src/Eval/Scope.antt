-- ===== src/Eval/Scope.antt =====
-- ast-eval.ts, class Scope. A scope is its chain of frames, the innermost first: a block pushes a
-- frame and leaves it behind, and no scope outlives its block.
use mog_jit.Prelude.{ℕ, List, [], ◌∷◌, Option, none, some, if◌then◌else◌}
use mog_jit.Prelude.Text.{Text, text_eq}
use mog_jit.Ast.{PrimType}
use mog_jit.Eval.Types.{narrow}

pub record Slot : Type 0 where
  pub type_of_slot : PrimType
  pub value : ℕ

-- One `vars` map, as its entries.
abbrev pub Frame : Type 0
Frame = List (Text × Slot)

-- `Map.get`.
unfoldable pub get : Text → Frame → Option Slot
get name [] = none
get name ((key, s) ∷ f) = if text_eq name key then some s else get name f

-- `Map.set`: it writes over an entry of that name, or adds one.
unfoldable pub put : Text → Slot → Frame → Frame
put name s [] = (name, s) ∷ []
put name s ((key, old) ∷ f) = if text_eq name key then (key, s) ∷ f else (key, old) ∷ put name s f

-- `declare`, in the innermost frame.
unfoldable pub declare : Text → PrimType → ℕ → List Frame → List Frame
declare name t v [] = []
declare name t v (f ∷ fs) = put name (record { type_of_slot = t; value = narrow v t }) f ∷ fs

-- `lookup`; `none` is the exception on an unknown variable.
unfoldable pub lookup : Text → List Frame → Option Slot
lookup name [] = none
lookup name (f ∷ fs) =
    let rest = lookup name fs in elim (get name f) [ some s ↦ some s | none ↦ rest ]

-- The write of `assign`, to the slot that `lookup` finds: narrowed to the slot's type.
unfoldable pub store_in : Text → ℕ → List Frame → List Frame
store_in name v [] = []
store_in name v (f ∷ fs) =
    let rest = store_in name v fs in
    elim (get name f) [
      | some s ↦ put name (record s { value = narrow v s.type_of_slot }) f ∷ fs
      | none ↦ f ∷ rest
    ]
