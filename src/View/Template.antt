-- ===== src/View/Template.antt =====
-- The components of frontend/src/components that came with the template of the client and that no page
-- uses: what they render, and the effects of the two that listen to the document.
pub mod Alert
pub mod Badge
pub mod Button
pub mod Avatar
pub mod Chrome
pub mod Media
pub mod Table
pub mod Tabs
pub mod Items
pub mod Overlay
