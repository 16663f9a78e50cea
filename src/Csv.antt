-- ===== src/Csv.antt =====
-- infra/csv.cpp: CSVWriter and CSVReader. Texts are lists of bytes; the delimiter and the quote
-- character are those that a reader or writer was constructed with.
pub mod Fields
pub mod Writer
pub mod Reader
pub mod Loop
pub mod Quoting
pub mod Output
pub mod Rows
pub mod Plain
pub mod Lines
pub mod Files
