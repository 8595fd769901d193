-- ===== src/Tool.antt =====
-- ii-tool: its commands.
pub mod Clean
pub mod Import
pub mod Commands
pub mod Gemini
mod Tests
