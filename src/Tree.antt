-- ===== src/Tree.antt =====
-- src/ui_simple.c and src/ui_advanced.c: the two graphs of nodes, and the table of both.
pub mod Simple
pub mod Advanced
pub mod Table
pub mod Confined
pub mod Inside
pub mod Menus
pub mod Modes
pub mod SimpleMoves
pub mod TableMoves
pub mod Routes
pub mod StrobeNode
