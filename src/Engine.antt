-- ===== src/Engine.antt =====
-- engine/engine.go: the policy engine. Its parts, in the order in which a request meets them: the
-- environment of an expression (Env), the constraints (Constraints), the evaluation of an action
-- (Evaluate). Priority proves what the order of the constraints decides, Audit what the evaluation
-- allows and records.
pub mod Env
pub mod Constraints
mod Order
pub mod Priority
pub mod Evaluate
pub mod Audit
mod Tests
