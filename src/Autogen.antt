-- ===== src/Autogen.antt =====
-- scripts/autogen.py: the generator of the stubs for the system calls, a module for each part.
pub mod Types
pub mod Args
pub mod Stubs
pub mod Libc
pub mod Wamr
pub mod ArchDiff
pub mod Wit
pub mod Markdown
pub mod Main
