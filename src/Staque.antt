-- ===== src/Staque.antt =====
-- pkg/structs/staque: the structures that are both a stack and a queue.
pub mod Simple
pub mod Priority
