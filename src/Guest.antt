-- ===== src/Guest.antt =====
-- Resource/CProgram/main.c: the game that the repository runs on its simulator, as the C program
-- means it. An `int` or `char` is its bit pattern, with the arithmetic wrapped to 32 bits.
pub mod Arithmetic
pub mod Keys
pub mod Random
pub mod Game
pub mod Console
pub mod Timer
pub mod Screen
pub mod Boot
pub mod Modes
