-- ===== src/RawMem.antt =====
-- fuzz/ts/lib/rawmem_ext.ts, the raw-memory extension: its buffer and the `exec` of its opcodes.
-- The buffer is the list of its bytes; a read past its end is 0 (`?? 0`) and a write there is lost,
-- as in a typed array.
pub mod Bytes
pub mod Loops
pub mod Exec
pub mod Store
pub mod Move
pub mod Compare
pub mod Effects
mod Tests
