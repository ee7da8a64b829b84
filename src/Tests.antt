-- ===== src/Tests.antt =====
-- Runs on concrete inputs, and the theorems applied at such inputs.
mod Flags
mod Manifest
mod Auth
mod Registry
mod Sign
mod Verify
mod Printing
mod Trust
mod Trace
mod Inspect
mod Login
mod Keys
mod Policy
mod Walk
mod Generate
mod Keeping
mod Commands
mod Once
mod Listing
mod Progress
mod Fingerprints
