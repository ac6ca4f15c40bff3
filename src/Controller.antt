-- ===== src/Controller.antt =====
-- internal/controller/podsequence_controller.go. `Api` is the API server and the libraries that the
-- reconciler calls, `Gates` removes scheduling gates, `NodeKeys` writes and releases a node's labels
-- and taints, `Status` computes the status of a node-scoped sequence, `Access` reads pods and writes
-- the status. `ClusterScoped`, `NodeScoped` and `Deletion` are the handlers, `Reconcile` composes
-- them, `Watches` maps changed objects to sequences.
--
-- `Traces`, `KeyTraces` and `ReleaseTraces` compose the calls of a handler from those of its parts.
-- On them stand the proofs: `ClusterRules`, `ClusterOrder`, `ClusterLoops`, `ClusterReleases`,
-- `ClusterSafety`, `ClusterSteady` and `ClusterProgress` on one run of `ClusterScoped`,
-- `ClusterHistory` on several, `NodeScopedOrder`, `NodeScopedOutcomes`, `NodeScopedErrors` and
-- `NodeScopedRelease` on `NodeScoped`, `DeletionSafety`, `DeletionRelease`, `DeletionLiveness` and
-- `OrphanSafety` on `Deletion`, `Permissions` on `Reconcile`, `Wakeups` on `Watches`. `Steered`,
-- `Release`, `Taints`, `NodeSync`, `LabelChanges`, `Releasing`, `Released`, `Labelling` and
-- `Report` are on single steps, `RoundTrip` on the webhook's gate. `Echo` describes a server that
-- accepts every patch.
pub mod Api
pub mod Gates
pub mod NodeKeys
pub mod Status
pub mod Taints
pub mod Echo
pub mod NodeSync
pub mod Report
pub mod Release
pub mod Labelling
pub mod Access
pub mod ClusterScoped
pub mod NodeScoped
pub mod Deletion
pub mod Reconcile
pub mod Watches
pub mod Traces
pub mod ClusterOrder
pub mod ClusterRules
pub mod ClusterLoops
pub mod ClusterReleases
pub mod ClusterSafety
pub mod KeyTraces
pub mod DeletionSafety
pub mod DeletionRelease
pub mod NodeScopedOrder
pub mod NodeScopedOutcomes
pub mod NodeScopedErrors
pub mod Permissions
pub mod RoundTrip
pub mod Wakeups
pub mod ReleaseTraces
pub mod OrphanSafety
pub mod ClusterHistory
pub mod DeletionLiveness
pub mod NodeScopedRelease
pub mod ClusterProgress
pub mod ClusterSteady
pub mod Releasing
pub mod Released
pub mod LabelChanges
pub mod Steered
