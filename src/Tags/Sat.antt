-- ===== src/Tags/Sat.antt =====
-- passes/tags/sat.h and sat*.cpp: `SATProblem`, by which the tag analysis asks whether its assumptions
-- on a pair of registers can hold together. A literal is twice a variable, plus one where it is negated.
pub mod Clauses
pub mod Search
pub mod Two
pub mod Problem
mod Tests
