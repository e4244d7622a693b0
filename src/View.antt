-- ===== src/View.antt =====
-- The rendered user interface: what the React components of frontend/src return for their props,
-- their local state and the shared state. The attribute `key` is left out.
pub mod Dom
pub mod Ui
pub mod Detail
pub mod Threats
pub mod Response
pub mod Processes
pub mod Kernel
pub mod Overview
pub mod Analysis
pub mod Health
pub mod Settings
pub mod Layout
pub mod Template
pub mod Document
