-- ===== src/Tests.antt =====
-- Runs of the definitions at small inputs, and the theorems at inputs that meet their hypotheses.
-- The field is that of two elements, where a run is easy to follow.
mod Headers
mod Binary
mod Coding
mod Packets
mod Transfer
mod Recoding
mod Completion
mod Systematic
mod Rates
mod Adaptation
mod Quality
mod Manifest
mod PlayOut
