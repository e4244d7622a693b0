-- ===== src/Pages.antt =====
-- frontend/src/pages and the components that they are made of: what each page computes from the
-- shared state.
pub mod Chart
pub mod Threats
pub mod Analysis
pub mod Response
pub mod Processes
pub mod Overview
pub mod Kernel
