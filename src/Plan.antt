-- ===== src/Plan.antt =====
-- internal/controller/nodeplan.go: the plan of one pass over the nodes and pods of a node-scoped
-- sequence. `Data` holds its types, `Satisfied` the test of one group on one node, `Members` the
-- first loop over the pods, `Nodes` the loop over the nodes, `Release` the loop over the gated
-- members, `Compute` the whole. The proofs on one group are in `Verdicts`, on one
-- round of each loop in `Prefixes`, `Membership` and `Outcomes`, on whole loops in `Runs` and
-- `States`, on the plan in `Accounting` and `Ordering`.
pub mod Data
pub mod Satisfied
pub mod Members
pub mod Nodes
pub mod Release
pub mod Compute
pub mod Outcomes
pub mod Runs
pub mod Verdicts
pub mod Prefixes
pub mod Membership
pub mod Accounting
pub mod States
pub mod Ordering
