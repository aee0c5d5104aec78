-- ===== src/Intake.antt =====
-- How test cases come in: backend/internal/qmetry/import.go reads the rows of an export, and
-- backend/internal/specdoc/generate.go what a model proposes from a document.
pub mod Headers
pub mod Rows
pub mod Counted
pub mod Layout
pub mod RoundTrip
pub mod Drafts
pub mod Reviewable
