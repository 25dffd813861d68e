-- ===== src/Trace.antt =====
-- dbg_trace.cpp: instruction-level tracing.
pub mod Callbacks
pub mod CallTarget
pub mod Fits
pub mod KernelTrace
pub mod LogFile
pub mod Loop
pub mod Registers
pub mod Script
pub mod Setup
pub mod StepFilter
