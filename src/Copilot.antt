-- ===== src/Copilot.antt =====
-- The copilot package: prices, the cost guard, the routing of questions, what answers show, and the agent.
pub mod Pricing
pub mod Provider
pub mod Budget
pub mod Claims
pub mod Grounding
pub mod Routing
pub mod Explain
pub mod Agent
