-- ===== src/Tests.antt =====
-- Small inputs on which the theorems apply.
mod Graphs
mod Analyses
mod Races
mod Files
mod Accesses
mod Runs
mod Traces
mod Clients
mod Lifecycles
mod Parsing
