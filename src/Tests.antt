-- ===== src/Tests.antt =====
-- The theorems at concrete inputs, over the fixed-point numbers of Float/Fixed: a cluster with one
-- pool, two requests, and what the code does with them.
mod Data
mod Plane
mod Caches
mod Pools
mod Choices
mod Runs
mod Documents
mod Served
