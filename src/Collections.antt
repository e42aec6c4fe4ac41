-- ===== src/Collections.antt =====
-- The containers of the C++ standard library that the program keeps its state in.
pub mod Set
pub mod Map
