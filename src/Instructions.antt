-- ===== src/Instructions.antt =====
-- src/instructions/*.cpp: the instruction methods of `Module`, one module to a file. A method that
-- is one chain is the `Emission` of that chain; the others are in `Module`.
pub mod Arguments
pub mod Annotation
pub mod Arithmetic
pub mod Atomic
pub mod Barrier
pub mod Bit
pub mod Constant
pub mod Conversion
pub mod Debug
pub mod Derivatives
pub mod Flow
pub mod Function
pub mod Group
pub mod Image
pub mod Logical
pub mod Memory
pub mod Misc
pub mod Types
pub mod Run
pub mod Wide
