-- ===== src/Shell.antt =====
-- The shell around the pages: the routes, the routed page with its banner, dialog, snackbar and
-- toolbar, and the base class of pages.
pub mod BuildInfo
pub mod Host
pub mod Links
pub mod SideNav
pub mod Router
pub mod Page
