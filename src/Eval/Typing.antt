-- ===== src/Eval/Typing.antt =====
-- Types and stored values: narrowing is idempotent, and static types depend on the declared types
-- alone.
use mog_jit.Prelude.{
  ℕ, ◌≡◌, refl, sym, ap, ◌∙◌, List, [], ◌∷◌, Option, none, some, if◌then◌else◌, arith, Bool-cases,
  Option-cases, inl, inr,
}
use mog_jit.Prelude.Text.{Text, text_eq}
use mog_jit.Prelude.Word.{IsWord}
use mog_jit.Ast.{
  PrimType, u32, u16, u8, i32, i16, i8, BinaryOp, bang, Expr, literal, ident, cast, assignment,
  conditional, logical, binary, unary, update, call,
}
use mog_jit.Eval.Types.{promote, usual, narrow}
use mog_jit.Eval.Scope.{Slot, Frame, get, put, declare, lookup, store_in}
use mog_jit.Eval.Ops.{type_of, slot_type, binary_type, is_comparison, is_shift}

pub narrow-IsWord : (v : ℕ) (t : PrimType) → IsWord (narrow v t)
unfolding narrow
narrow-IsWord v u8 = ground arith
narrow-IsWord v u16 = ground arith
narrow-IsWord v i8 = ground arith
narrow-IsWord v i16 = ground arith
narrow-IsWord v u32 = ground arith
narrow-IsWord v i32 = ground arith

pub narrow-narrow : (v : ℕ) (t : PrimType) → narrow (narrow v t) t ≡ narrow v t
unfolding narrow
narrow-narrow v u8 = ground arith
narrow-narrow v u16 = ground arith
narrow-narrow v i8 = ground arith
narrow-narrow v i16 = ground arith
narrow-narrow v u32 = ground arith
narrow-narrow v i32 = ground arith

-- A word is what a word type stores.
pub narrow-promote : (v : ℕ) (t : PrimType) → IsWord v → narrow v (promote t) ≡ v
unfolding narrow promote
narrow-promote v u32 h = omega arith
narrow-promote v _ h = omega arith

pub narrow-usual : (v : ℕ) (t u : PrimType) → IsWord v → narrow v (usual t u) ≡ v
unfolding narrow usual
narrow-usual v u32 u h = omega arith
narrow-usual v t u32 h = omega arith
narrow-usual v t u h = omega arith

pub narrow-binary_type :
    (op : BinaryOp) (v : ℕ) (t u : PrimType) → IsWord v → narrow v (binary_type op t u) ≡ v
unfolding binary_type narrow
narrow-binary_type op v t u h = elim (Bool-cases (is_comparison op)) [
  | inl c ↦ rw c (omega arith)
  | inr c ↦ rw c (elim (Bool-cases (is_shift op)) [
    | inl s ↦ rw s (narrow-promote v t h)
    | inr s ↦ rw s (narrow-usual v t u h)
  ])
]

-- What a slot holds is what its type can hold.
abbrev pub IsStored : Slot → Type 0
IsStored s = narrow s.value s.type_of_slot ≡ s.value

abbrev pub IsFrame : Frame → Type 0
IsFrame [] = Unit
IsFrame ((x, s) ∷ f) = IsStored s × IsFrame f

abbrev pub IsScope : List Frame → Type 0
IsScope [] = Unit
IsScope (f ∷ fs) = IsFrame f × IsScope fs

abbrev pub Shape : Type 0
Shape = List (List (Text × PrimType))

abbrev pub shape : Frame → List (Text × PrimType)
shape [] = []
shape ((x, s) ∷ f) = (x, s.type_of_slot) ∷ shape f

-- The names and types that a scope declares.
abbrev pub types : List Frame → Shape
types [] = []
types (f ∷ fs) = shape f ∷ types fs

abbrev type_in : Text → List (Text × PrimType) → Option PrimType
type_in x [] = none
type_in x ((y, t) ∷ f) = if text_eq x y then some t else type_in x f

abbrev or_else_type : Option PrimType → Option PrimType → Option PrimType
or_else_type none o = o
or_else_type (some t) o = some t

abbrev type_at : Text → Shape → Option PrimType
type_at x [] = none
type_at x (f ∷ fs) = or_else_type (type_in x f) (type_at x fs)

get-type_in : (x : Text) (f : Frame) → slot_type (get x f) ≡ type_in x (shape f)
unfolding get
get-type_in x [] = refl
get-type_in x ((y, s) ∷ f) = elim (Bool-cases (text_eq x y)) [
  | inl e ↦ rw e
  | inr e ↦ rw e (get-type_in x f)
]

lookup-type_at : (x : Text) (fs : List Frame) → slot_type (lookup x fs) ≡ type_at x (types fs)
unfolding lookup
lookup-type_at x [] = refl
lookup-type_at x (f ∷ fs) =
    let q = get-type_in x f in
    elim (Option-cases (get x f)) [
      | inl e ↦ rw (e, lookup) (rw (sym q ∙ ap slot_type e) (lookup-type_at x fs))
      | inr (s, e) ↦ rw (e, lookup) (rw (sym q ∙ ap slot_type e))
    ]

pub get-IsStored : (x : Text) (f : Frame) {s : Slot} → IsFrame f → get x f ≡ some s → IsStored s
unfolding get
get-IsStored x [] h e = cc
get-IsStored x ((y, s) ∷ f) h e = elim (Bool-cases (text_eq x y)) [
  | inl q ↦ ground (arith, q)
  | inr q ↦ get-IsStored x f h.1 (rw q at e)
]

pub lookup-IsStored :
    (x : Text) (fs : List Frame) {s : Slot} → IsScope fs → lookup x fs ≡ some s → IsStored s
unfolding lookup
lookup-IsStored x [] h e = cc
lookup-IsStored x (f ∷ fs) h e = elim (Option-cases (get x f)) [
  | inl q ↦ lookup-IsStored x fs h.1 (rw (q, lookup) at e)
  | inr (s', q) ↦ get-IsStored x f h.0 (q ∙ (rw (q, lookup) at e))
]

pub put-IsFrame : (x : Text) (s : Slot) (f : Frame) → IsStored s → IsFrame f → IsFrame (put x s f)
unfolding put
put-IsFrame x s [] hs h = (hs, tt)
put-IsFrame x s ((y, old) ∷ f) hs h = elim (Bool-cases (text_eq x y)) [
  | inl q ↦ rw q (hs, h.1)
  | inr q ↦ rw q (h.0, put-IsFrame x s f hs h.1)
]

-- Writing over an entry keeps the names and types.
put-shape :
    (x : Text) (s s' : Slot) (f : Frame)
    → get x f ≡ some s
    → s'.type_of_slot ≡ s.type_of_slot
    → shape (put x s' f) ≡ shape f
unfolding get put
put-shape x s s' [] e t = cc
put-shape x s s' ((y, old) ∷ f) e t = elim (Bool-cases (text_eq x y)) [
  | inl q ↦ rw q (ground (arith, q))
  | inr q ↦ rw q (rw (put-shape x s s' f (rw q at e) t))
]

pub declare-IsScope :
    (x : Text) (t : PrimType) (v : ℕ) (fs : List Frame) → IsScope fs → IsScope (declare x t v fs)
unfolding declare
declare-IsScope x t v [] h = tt
declare-IsScope x t v (f ∷ fs) h = (put-IsFrame x _ f (narrow-narrow v t) h.0, h.1)

pub store_in-IsScope : (x : Text) (v : ℕ) (fs : List Frame) → IsScope fs → IsScope (store_in x v fs)
unfolding store_in
store_in-IsScope x v [] h = tt
store_in-IsScope x v (f ∷ fs) h = elim (Option-cases (get x f)) [
  | inl q ↦ rw (q, store_in) (h.0, store_in-IsScope x v fs h.1)
  | inr (s, q) ↦ rw (q, store_in) (put-IsFrame x _ f (narrow-narrow v s.type_of_slot) h.0, h.1)
]

pub store_in-types : (x : Text) (v : ℕ) (fs : List Frame) → types (store_in x v fs) ≡ types fs
unfolding store_in
store_in-types x v [] = refl
store_in-types x v (f ∷ fs) = elim (Option-cases (get x f)) [
  | inl q ↦ rw (q, store_in) (rw (store_in-types x v fs))
  | inr (s, q) ↦
      rw (q, store_in)
        (ap (λ (g : List (Text × PrimType)). g ∷ types fs) (put-shape x s _ f q refl))
]

pub lookup-types :
    (x : Text) (fs gs : List Frame)
    → types fs ≡ types gs
    → slot_type (lookup x fs) ≡ slot_type (lookup x gs)
lookup-types x fs gs h = lookup-type_at x fs ∙ ap (type_at x) h ∙ sym (lookup-type_at x gs)

-- The static type of an expression is settled by the declared types.
pub type_of-types :
    (e : Expr) (fs gs : List Frame) → types fs ≡ types gs → type_of e fs ≡ type_of e gs
unfolding type_of
type_of-types (literal v) fs gs h = refl
type_of-types (ident x) fs gs h = lookup-types x fs gs h
type_of-types (cast t e) fs gs h = refl
type_of-types (assignment op x e) fs gs h = lookup-types x fs gs h
type_of-types (conditional c a b) fs gs h =
    rw (type_of-types a fs gs h, type_of-types b fs gs h) refl
type_of-types (logical op l r) fs gs h = refl
type_of-types (binary op l r) fs gs h = rw (type_of-types l fs gs h, type_of-types r fs gs h) refl
type_of-types (unary bang e) fs gs h = refl
type_of-types (unary op e) fs gs h = rw (type_of-types e fs gs h) refl
type_of-types (update op pre (ident x)) fs gs h = lookup-types x fs gs h
type_of-types (update op pre e) fs gs h = refl
type_of-types (call f args) fs gs h = refl
