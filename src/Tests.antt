-- ===== src/Tests.antt =====
-- Runs on small inputs.
mod Trace
mod Autogen
mod Stubs
mod Wit
mod Rustc
mod Toolchains
mod Main
mod Convert
mod Profile
mod Success
