-- ===== src/Pii.antt =====
-- internal/pii: finding personal data in a text and replacing it by placeholders. A text is its
-- bytes.
pub mod Patterns
pub mod Detector
pub mod Chain
pub mod Claims
pub mod Scanning
pub mod Detections
pub mod Composed
pub mod Luhn
mod Examples
pub mod Redactor
