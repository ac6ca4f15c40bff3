-- ===== src/Controller/Status.antt =====
-- internal/controller/podsequence_controller.go: `setNodeScopedStatus` and `truncateList`. The
-- gauges that it sets are not modelled.
use podsequencing.Base.{
  ℕ, suc, ◌-◌, String, ◌<>◌, Bool, true, not, ◌&&◌, ◌||◌, Option, none, some, List, [], ◌∷◌, ◌++◌,
  map, ◌==◌, ◌!=◌, nat_eq, string_eq, ltb, leb, if◌then◌else◌, length, take, join, itoa,
}
use podsequencing.Kubernetes.{Condition}
use podsequencing.Types.{
  NodeSequenceStatus, PodSequence, PodSequenceStatus, phase_active, phase_in_progress, phase_failed,
  condition_ready, condition_degraded,
}
use podsequencing.Sequence.Keys.{max_node_status_entries, sequence_label}
use podsequencing.Plan.Data.{NodeState, NodePlan}
use podsequencing.Controller.Api.{Api, Action, pure, tell, ◌>>◌, event}

-- The local variables of the loop over the nodes.
pub record Tally : Type 0 where
  pub total : ℕ
  pub satisfied : ℕ
  pub failed : ℕ
  pub min_index : ℕ
  pub failed_entries : List NodeSequenceStatus
  pub pending_entries : List NodeSequenceStatus

abbrev pub no_nodes : ℕ → Tally
no_nodes num_groups = record {
  total = 0;
  satisfied = 0;
  failed = 0;
  min_index = num_groups;
  failed_entries = [];
  pending_entries = [];
}

abbrev pub entry_of : String → NodeState → NodeSequenceStatus
entry_of phase st = record {
  node_name = st.name;
  current_index = st.satisfied;
  phase = phase;
  message = st.message;
}

-- One round of the loop.
unfoldable pub tally_node : ℕ → Tally → NodeState → Tally
tally_node num_groups t st =
    let seen = record t {
      total = suc t.total;
      min_index = if ltb st.satisfied t.min_index then st.satisfied else t.min_index;
    } in
    if not st.participating
    then t
    else if leb num_groups st.satisfied
    then record seen { satisfied = suc t.satisfied }
    else if st.failed
    then record seen {
      failed = suc t.failed;
      failed_entries = t.failed_entries ++ (entry_of phase_failed st ∷ []);
    }
    else record seen { pending_entries = t.pending_entries ++ (entry_of phase_in_progress st ∷ []) }

unfoldable pub tally_nodes : ℕ → Tally → List NodeState → Tally
tally_nodes num_groups t [] = t
tally_nodes num_groups t (st ∷ sts) = tally_nodes num_groups (tally_node num_groups t st) sts

-- `truncateList`
unfoldable pub truncate_list : List String → ℕ → String
truncate_list items max =
    if leb (length items) max
    then join items ", "
    else join (take max items) ", " <> (" and " <> (itoa (length items - max) <> " more"))

unfoldable pub status_message : Tally → NodePlan → String
status_message t plan =
    itoa t.satisfied
    <> ("/" <> (itoa t.total <> (" nodes satisfied, " <> (itoa plan.gated_pods <> " pods gated"))))

unfoldable pub ready_report : PodSequence → Tally → NodePlan → Condition
ready_report seq t plan =
    let all = t.satisfied == t.total in
    record {
      type = condition_ready;
      status = if all then "True" else "False";
      observed_generation = seq.generation;
      reason = if all then "AllNodesSatisfied" else "NodesPending";
      message = status_message t plan;
    }

-- The problems that the Degraded condition lists.
unfoldable pub problems : Tally → NodePlan → List String
problems t plan =
    let late : List String =
      if ltb 0 t.failed
      then (itoa t.failed
          <> (" node(s) exceeded gateTimeout: "
              <> truncate_list (map (λ e. e.node_name) t.failed_entries) 10))
        ∷ []
      else [] in
    let intolerant : List String = elim plan.missing_toleration [
      | [] ↦ []
      | name ∷ names ↦
          ("DaemonSet(s) "
            <> (join (name ∷ names) ", "
                <> (" do not tolerate taint "
                    <> (plan.key
                        <> ("; label the DaemonSet with "
                            <> (sequence_label
                                <> " so the webhook injects it, or add the toleration"))))))
          ∷ []
    ] in
    late ++ intolerant

unfoldable pub degraded_report : PodSequence → Tally → NodePlan → Condition
degraded_report seq t plan =
    let reason : String =
      if ltb 0 t.failed
      then "GateTimeout"
      else elim plan.missing_toleration [ [] ↦ "AsExpected" | _ ↦ "MissingToleration" ] in
    elim (problems t plan) [
      | [] ↦ record {
        type = condition_degraded;
        status = "False";
        observed_generation = seq.generation;
        reason = reason;
        message = "No problems detected";
      }
      | first ∷ rest ↦ record {
        type = condition_degraded;
        status = "True";
        observed_generation = seq.generation;
        reason = reason;
        message = join (first ∷ rest) "; ";
      }
    ]

-- Whether the warning event is due, given the Degraded condition of before.
unfoldable pub is_news : Condition → Option Condition → Bool
is_news degraded before =
    degraded.status == "True"
    && elim before [ none ↦ true | some c ↦ c.status != "True" || c.message != degraded.message ]

module _ (api : Api) where
  unfoldable pub node_status : PodSequence → Tally → NodePlan → PodSequenceStatus
  node_status seq t plan = record (seq.status) {
    node_eligibility_key = plan.key;
    node_status = take max_node_status_entries (t.failed_entries ++ t.pending_entries);
    summary = some (record {
      total_nodes = t.total;
      satisfied_nodes = t.satisfied;
      failed_nodes = t.failed;
      gated_pods = plan.gated_pods;
    });
    current_index = t.min_index;
    current_group_pods = [];
    ready_pods_in_current_group = 0;
    processed_pods = [];
    message = status_message t plan;
    phase = if t.satisfied == t.total then phase_active else phase_in_progress;
    conditions =
        api.set_condition (api.set_condition seq.status.conditions (ready_report seq t plan))
          (degraded_report seq t plan);
  }

  -- The sequence with its new status.
  unfoldable pub set_node_scoped_status : PodSequence → PodSequence → NodePlan → Action PodSequence
  set_node_scoped_status orig seq plan =
      let t = tally_nodes plan.num_groups (no_nodes plan.num_groups) plan.nodes in
      let degraded = degraded_report seq t plan in
      let new = record seq { status = node_status seq t plan } in
      if is_news degraded (api.find_condition orig.status.conditions condition_degraded)
      then tell (event "Warning" degraded.reason degraded.message) >> pure new
      else pure new
