-- ===== src/Webhook.antt =====
-- internal/webhook/podsequence_webhook.go: `Handlers` holds FindSequence and the two admission
-- handlers, `Lookup`, `Gating` and `Mutation` the proofs on them.
pub mod Handlers
pub mod Lookup
pub mod Gating
pub mod Mutation
