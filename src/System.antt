-- ===== src/System.antt =====
-- Small parts of debugger/ and system/ that wrap a call of the system. What the system answers is an
-- argument.
pub mod Debugger
pub mod Texts
pub mod ThreadName
pub mod Clock
