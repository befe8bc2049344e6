-- ===== src/Tags.antt =====
-- passes/tags: the types by which the pass that removes tag bits of OCaml values tells integers from
-- pointers.
pub mod MaskedType
pub mod TaggedType
pub mod Step
pub mod Sat
