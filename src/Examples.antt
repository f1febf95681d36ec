-- ===== src/Examples.antt =====
-- Runs on small inputs, and each result at a concrete input.
mod Lsi
mod Index
mod Search
mod Vector
mod Tools
mod Data
mod Bench
mod Art
mod Walk
mod Plain
