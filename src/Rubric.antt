-- ===== src/Rubric.antt =====
-- The rubric tree: the import of its files (app/backend/services/rubric_importer.py), its frozen
-- copies (rubric_snapshot.py), and the gate on its changes (scripts/sync_rubric_to_db.py).
pub mod Document
pub mod Tables
pub mod Materialise
pub mod Seed
pub mod Snapshot
pub mod Gate
pub mod Frame
pub mod Frozen
pub mod Branches
pub mod Receipt
pub mod Mentions
pub mod Removal
pub mod Names
pub mod Admission
pub mod Examples
pub mod GateExamples
pub mod Workbook
pub mod Sheet
pub mod Convert
pub mod Importable
pub mod Linked
pub mod SheetExamples
