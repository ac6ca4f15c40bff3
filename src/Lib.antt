-- ===== src/Lib.antt =====
-- A model of the PodSequence controller, which starts pods group by group with scheduling gates. A
-- node-scoped sequence holds each pod of a group back on its node until all earlier groups are
-- satisfied there.
--
-- The parts and their code:
--   Types        api/v1alpha1/podsequence_types.go: the PodSequence resource, spec and status
--   Sequence     internal/sequence/sequence.go (Keys, Fields, Groups, Pods, Steering) and
--                internal/sequence/daemonset.go (DaemonSets): the pure helpers
--   Plan         internal/controller/nodeplan.go: ComputeNodePlan, which reads a sequence, its nodes,
--                pods and DaemonSets and returns a plan (Data, Satisfied, Members, Nodes, Release,
--                Compute)
--   Controller   internal/controller/podsequence_controller.go: removeGate and applyPodAction (Gates),
--                setNodeKey, syncNodeEligibility and releaseNodeKeys (NodeKeys), setNodeScopedStatus
--                (Status), patchStatus and getPodsInGroup (Access), reconcileClusterScoped
--                (ClusterScoped), reconcileNodeScoped (NodeScoped), handleDeletion and
--                cleanupOrphanedNodeKeys (Deletion), Reconcile (Reconcile), and the map functions
--                of the watches (Watches)
--   Webhook      internal/webhook/podsequence_webhook.go: FindSequence, the pod gate injector and the
--                DaemonSet mutator (Handlers)
--   Kubernetes   the fields of k8s.io/api objects that the code reads, and Kubernetes.Platform
--   Base         shared names, tests, lists, texts, and Go's (value, error) results
--   Tests        a platform, an API server, a sequence on one node, and the theorems at these inputs
--
-- How the parts interact: the webhooks gate the pods that opt in and prepare their DaemonSets, with
-- the same helpers that the controller reads them by. ComputeNodePlan calls the helpers and is a
-- function of a snapshot. The controller applies the plan: it writes each node's index under the
-- plan's key as a label or a taint, steers pods without a node by affinity or tolerations on that
-- key, removes the gates of the released pods, and reports the plan in the status. A cluster-scoped
-- sequence has no plan: the status's current index is its state. Reconcile adds the finalizer, calls
-- the handler of the scope, and at deletion releases what the sequence holds. The watches map a changed pod, node or DaemonSet to the sequences to reconcile.
--
-- Correspondence. A definition has the Go function's name in snake case. A Go loop is a structural
-- recursion over its slice, with the loop's variables as arguments. A pointer is an Option, a
-- `(value, error)` pair a Result or an Option of an error, a `map[string]bool` that is only tested its
-- test. A function that changes a pod or node through a pointer returns the new object. A method that
-- calls the API server is an Action: it maps the calls made so far to its result and the longer list
-- of calls, and the server's answers are functions of those calls, so the answers may depend on
-- anything that happened before. The code below an early return is a function of its own, which
-- takes the answer that the return is decided by. A theorem on a handler speaks of the calls that it
-- adds to those made before: Emits says that each satisfies a predicate, Includes that one is there.
-- A theorem on states that are reached speaks of any sequence of reconciles, each against a server of
-- its own that may answer anything, where the status that one writes is what the next one reads.
--
-- Parameters. Platform stands for SHA-256, time.ParseDuration, label selectors, tolerations and node
-- affinity of the Kubernetes libraries; IsDocumented states the documented behaviour that some
-- theorems need, and Tests.Platform meets it. Api stands for the API server, controller-runtime's
-- client, its finalizer helpers and helpers of apimachinery, with IsAggregating for the aggregate of
-- errors; the webhooks' Reader stands for what they read during one request, with JSON encoding.
-- IsEchoing describes a server that accepts each patch and answers with the patched object,
-- IsAccepting one that accepts every call of a deletion, IsSteady one whose pods do not change; the
-- servers of Tests meet them.
--
-- Bounds. No loop needs fuel but the decimal digits of a number, where the number itself plus one is
-- enough, as decimal-itoa shows. Instants and durations are nanoseconds without an upper bound;
-- overflow of Go's 64-bit durations is not modelled. Names of nodes are unique in a cluster, so the
-- index from names to node states is a search for the first state of the name.
--
-- Not modelled: SetupWithManager and the ticker that runs cleanupOrphanedNodeKeys, which only wire
-- modelled functions to controller-runtime; metrics, gauges and logs, cmd/main.go, and the generated
-- deep copies.
pub mod Base
pub mod Kubernetes
pub mod Types
pub mod Sequence
pub mod Plan
pub mod Controller
pub mod Webhook
pub mod Tests
