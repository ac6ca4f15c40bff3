-- ===== src/Sequence.antt =====
-- internal/sequence: the helpers that the controller and the webhooks share. `Keys` names the
-- labels and keys, `Fields` the effective settings, `Groups` the membership of pods, `Pods` what is
-- read off a pod, `Steering` the constraints of unpinned pods, `DaemonSets` daemonset.go.
-- `Eligibility` and `Additions` hold the proofs on the constraints.
pub mod Keys
pub mod Fields
pub mod Groups
pub mod Pods
pub mod Steering
pub mod DaemonSets
pub mod Eligibility
pub mod Additions
