-- ===== src/Samples.antt =====
-- Instances of the parameters, small inputs, and what the program does on them; each module applies
-- the theorems about one part.
mod World
mod Data
mod Breaker
mod Fusing
mod Routes
mod Engines
mod Providers
mod Sleep
mod Meshes
mod Wire
mod Windows
mod Stores
mod Histories
mod Settings
mod Features
mod Bridges
mod LocalStores
mod Loops
