-- ===== src/Tags/Step.antt =====
-- passes/tags/eval: `Step` evaluates an instruction on the types of its operands. `Step::Add` and the
-- others of passes/tags/eval/{add,sub,and,or,xor,mul,shift,conv}.cpp are step_add and so on; a function for
-- each row of a switch. `llvm_unreachable` is `none`.
pub mod Add
pub mod Sub
pub mod And
pub mod Or
pub mod Xor
pub mod Mul
pub mod Shift
pub mod Words
pub mod Pointers
pub mod Products
pub mod Conv
pub mod Tests
