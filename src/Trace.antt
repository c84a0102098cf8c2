-- ===== src/Trace.antt =====
-- Package sdk/trace.
pub mod BatchSpan
pub mod Fraction
pub mod Sampler
pub mod Deferred
