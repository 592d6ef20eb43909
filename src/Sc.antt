-- ===== src/Sc.antt =====
-- sc: the rules for log keys, the counters of commands, the handler of client connections, and the route
-- of outgoing requests.
pub mod Table
pub mod Backend
pub mod Reporter
pub mod Filter
pub mod Monitor
pub mod Monitored
pub mod Alerts
pub mod Reports
pub mod Counts
pub mod Session
pub mod Rpush
pub mod Commands
pub mod Handler
pub mod Served
pub mod Pushes
pub mod Limits
pub mod Routing
pub mod Proxy
pub mod Chains
pub mod Paths
pub mod Routed
pub mod Splitting
pub mod Composed
