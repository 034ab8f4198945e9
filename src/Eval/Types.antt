-- ===== src/Eval/Types.antt =====
-- ast-eval.ts, the type rule: promotion, the usual conversions, and narrowing on a write.
use mog_jit.Prelude.{ℕ, ◌+◌, ◌-◌, ◌%◌, ◌^◌, ltb, leb, if◌then◌else◌}
use mog_jit.Prelude.Word.{to_u32}
use mog_jit.Ast.{PrimType, u32, u16, u8, i32, i16, i8}

unfoldable pub promote : PrimType → PrimType
promote u32 = u32
promote _ = i32

-- The result is unsigned exactly if one operand promotes to `u32`.
unfoldable pub usual : PrimType → PrimType → PrimType
usual u32 b = u32
usual a u32 = u32
usual a b = i32

-- A narrow type is stored already extended. `value & 0xff` is the remainder by 2 ^ 8, and
-- `((value << 24) >> 24) >>> 0` puts copies of bit 7 above it.
unfoldable pub narrow : ℕ → PrimType → ℕ
narrow value u8 = value % 2 ^ 8
narrow value u16 = value % 2 ^ 16
narrow value i8 = let low = value % 2 ^ 8 in if ltb low (2 ^ 7) then low else low + (2 ^ 32 - 2 ^ 8)
narrow value i16 =
    let low = value % 2 ^ 16 in if ltb low (2 ^ 15) then low else low + (2 ^ 32 - 2 ^ 16)
narrow value u32 = to_u32 value
narrow value i32 = to_u32 value

-- An unsuffixed literal is an `int` unless it does not fit one.
unfoldable pub literal_type : ℕ → PrimType
literal_type value = if leb value 0x7fffffff then i32 else u32
