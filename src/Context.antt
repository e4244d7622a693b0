-- ===== src/Context.antt =====
-- frontend/src/context: the state that the whole user interface shares.
pub mod Guardian
pub mod Sidebar
pub mod Theme
