-- ===== src/Ui.antt =====
-- The shared inputs, frontend/src/components/ui: the combobox that loads its items.
pub mod Combobox
pub mod Table
pub mod Rows
mod Tests
