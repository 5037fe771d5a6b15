-- ===== src/Waypoints.antt =====
-- static/lib/waypoints/jquery.waypoints.js, a module for each of its classes.
pub mod State
pub mod Table
pub mod Group
pub mod Context
pub mod Refresh
pub mod Lifecycle
mod Tests
