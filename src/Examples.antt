-- ===== src/Examples.antt =====
-- The theorems at concrete inputs, and small runs of the code.
mod Automaton
mod Scripts
mod Audits
mod Storage
mod Derivation
mod Turns
mod Recoveries
mod Events
mod Transitions
