-- ===== src/Node.antt =====
-- ii-node: what the node does with a point's message, and the texts and pages of its web pages.
pub mod Points
pub mod Html
pub mod Pager
pub mod Xpm
pub mod Links
pub mod Texts
pub mod Pages
pub mod Routes
pub mod Handlers
pub mod Web
pub mod Accounts
pub mod Admin
mod Tests
