-- ===== src/Examples.antt =====
-- Runs on small inputs, and the theorems at inputs that meet their hypotheses.
mod Data
mod EventLog
mod Folding
mod Operations
mod Storing
mod Sharing
mod Granting
mod Collecting
mod Commenting
mod Publishing
mod Locking
mod Rendering
