-- ===== src/Identity.antt =====
-- app/services/identity.py: issuer names, issue types, the lifecycle of an issue, and label hygiene.
pub mod Status
pub mod Names
pub mod IssueType
pub mod Labels
mod Tests
