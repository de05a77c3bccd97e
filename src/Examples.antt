-- ===== src/Examples.antt =====
-- Concrete data, tests of the definitions, and the theorems at inputs that meet their hypotheses.
mod Data
mod Jobs
mod Engine
mod Submit
mod Repository
mod Discovery
mod Budget
mod Queues
mod Agent
mod Connection
mod Pages
mod Layout
mod Status
mod Mock
mod Escpos
mod Labels
mod Prints
