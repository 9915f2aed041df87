-- ===== src/Window.antt =====
-- sp/client/window: the components that the client's screens are built from.
pub mod Geometry
pub mod Component
pub mod Build
pub mod Areas
pub mod Layout
pub mod Rebuild
pub mod Draw
pub mod Controls
