-- ===== src/Toolkit.antt =====
-- The validator of the agents' toolkit,
-- .agents/skills/onyx-server-agent-toolkit/scripts/validate_toolkit.py.
pub mod Checks
pub mod Policy
pub mod Roles
pub mod Frontmatter
pub mod Skills
pub mod Codex
pub mod Claude
pub mod Run
pub mod Tests
pub mod Mistakes
