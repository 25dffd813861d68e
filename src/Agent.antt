-- ===== src/Agent.antt =====
-- main.cpp: the debugger extension and its command `!agent`.
pub mod Args
pub mod Clipboard
pub mod Dispatch
pub mod Info
pub mod Servers
pub mod TraceOptions
pub mod Starting
pub mod Stopping
pub mod World
