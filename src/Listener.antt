-- ===== src/Listener.antt =====
-- src/pybmpmon/listener.py
pub mod Routes
pub mod RouteLaws
pub mod Service
pub mod Handlers
pub mod Connection
pub mod HandlerLaws
mod ParsersEnd
pub mod NoEndlessLoop
pub mod RouteFlow
pub mod UpdateFlow
pub mod Framing
pub mod Lifetime
pub mod ErrorCounts
pub mod Sessions
pub mod Reports
pub mod Run
mod ConnectionExamples
mod Examples
