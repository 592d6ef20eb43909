-- ===== src/Examples.antt =====
-- The theorems of the development at concrete inputs.
pub mod Wires
pub mod CredisExamples
pub mod Bufio2Examples
pub mod CacheExamples
pub mod SlotExamples
pub mod NodeExamples
pub mod ClusterExamples
pub mod ScExamples
pub mod RouteExamples
