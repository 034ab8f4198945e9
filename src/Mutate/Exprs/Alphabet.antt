-- ===== src/Mutate/Exprs/Alphabet.antt =====
-- mutate.ts: the alphabet, the draws from it, and shiftSafe.
use Prim.Native.Nat.{bit_and}
use mog_jit.Prelude.{ℕ, Bool, true, false, List, [], ◌∷◌, leb, ◌==◌, if◌then◌else◌}
use mog_jit.Prelude.Text.{Text, codes}
use mog_jit.Prelude.Word.{to_u32}
use mog_jit.Ast.{
  PrimType, u16, u8, i16, i8, BinaryOp, add, sub, mul, bor, bxor, band, shl, shr, eq, ne, lt, le,
  gt, ge, UnaryOp, minus, complement, bang, Expr, literal, binary, call, nil, cons,
}
use mog_jit.Core.{◌>>=◌, pure}
use mog_jit.Mutate.Machine.{G, one_from}

-- The classes of BINARY_CLASSES, each as its first operator and the others.
abbrev pub OpClass : Type 0
OpClass = BinaryOp × List BinaryOp

abbrev pub arith_class : OpClass
arith_class = (add, sub ∷ mul ∷ [])

abbrev pub bitwise_class : OpClass
bitwise_class = (bor, bxor ∷ band ∷ [])

abbrev pub shift_class : OpClass
shift_class = (shl, shr ∷ [])

abbrev pub compare_class : OpClass
compare_class = (eq, ne ∷ lt ∷ le ∷ gt ∷ ge ∷ [])

-- `BINARY_CLASSES.find(c => c.includes(op)) ?? ARITH`.
unfoldable pub class_of : BinaryOp → OpClass
class_of bor = bitwise_class
class_of bxor = bitwise_class
class_of band = bitwise_class
class_of shl = shift_class
class_of shr = shift_class
class_of eq = compare_class
class_of ne = compare_class
class_of lt = compare_class
class_of le = compare_class
class_of gt = compare_class
class_of ge = compare_class
class_of _ = arith_class

abbrev pub max_expr_height : ℕ
max_expr_height = 32

-- BOUNDARY, after its first element 0.
abbrev pub boundary : List ℕ
boundary =
    1 ∷ 2 ∷ 3 ∷ 7 ∷ 8 ∷ 15 ∷ 16 ∷ 31 ∷ 32 ∷ 255 ∷ 256 ∷ 65535 ∷ 65536 ∷ 0x7fffffff ∷ 0x80000000
    ∷ 0xffffffff ∷ []

abbrev pub opaque_calls : List Text
opaque_calls = codes "trap" ∷ codes "memmove" ∷ []

-- `{name: procName(j), arity}` of a procedure that may be called.
pub record Callable : Type 0 where
  pub name : Text
  pub arity : ℕ

-- `lit`.
abbrev pub lit : ℕ → Expr
lit v = literal (to_u32 v)

unfoldable pub is_shift : BinaryOp → Bool
is_shift shl = true
is_shift shr = true
is_shift _ = false

-- `e & 31` is masked already.
unfoldable pub already_masked : Expr → Bool
already_masked (binary band l (literal v)) = v == 31
already_masked e = false

unfoldable pub masked_amount : Expr → Expr
unfolding already_masked
masked_amount (literal v) = if leb v 31 then literal v else lit (bit_and v 31)
masked_amount e = if already_masked e then e else binary band e (lit 31)

unfoldable pub shift_safe : BinaryOp → Expr → Expr
unfolding is_shift masked_amount
shift_safe op right = if is_shift op then masked_amount right else right

-- `ctx.rng.pick(ctx.rng.pick(BINARY_CLASSES))`.
unfoldable pub any_operator : G BinaryOp
any_operator = do
  c ← one_from arith_class (bitwise_class ∷ shift_class ∷ compare_class ∷ [])
  one_from c.0 c.1

unfoldable pub any_unary : G UnaryOp
any_unary = one_from minus (complement ∷ bang ∷ [])

unfoldable pub any_narrow : G PrimType
any_narrow = one_from u16 (u8 ∷ i16 ∷ i8 ∷ [])

unfoldable pub any_boundary : G Expr
any_boundary = do v ← one_from 0 boundary; pure (lit v)

unfoldable pub any_unary_builtin : G Text
any_unary_builtin = one_from (codes "clz") (codes "revbits" ∷ [])

unfoldable pub any_load : G Text
any_load = one_from (codes "ld8") (codes "ld16" ∷ codes "ld32" ∷ [])

abbrev pub call_one : Text → Expr → Expr
call_one f e = call f (cons e nil)
