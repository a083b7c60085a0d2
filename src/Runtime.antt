-- ===== src/Runtime.antt =====
-- The C runtime that compost_rpc/lib/c/source_template.py holds as text, and the dispatch that
-- `CCodeGenerator.generate` adds to it.
pub mod Header
pub mod Process
pub mod Numbers
pub mod NumberLaws
pub mod BitUint
pub mod BitUintLaws
pub mod Fields
pub mod Alloc
pub mod Slices
pub mod SliceLaws
pub mod CopyLaws
pub mod Strings
pub mod StringLaws
pub mod FloatLaws
pub mod Interop
pub mod Switch
pub mod Device
pub mod EndToEnd
mod Runs
mod MemoryRuns
mod SliceRuns
