-- ===== src/Controller/NodeScopedRelease.antt =====
-- `reconcileNodeScoped` (internal/controller/podsequence_controller.go): the releases of its plan on a
-- server that accepts patches.
use mathlib.Core.List.{Memᴰ}
use podsequencing.Base.{
  ap, ◌∙◌, append_assoc, ◌++◌, ◌≡◌, inl, inr, refl, sym, subst, true, some, List, [], ◌∷◌, ok, any,
  Option-cases, All, All-of_mem, ◌==◌, string_eq,
}
use podsequencing.Kubernetes.{Pod, Node, DaemonSet}
use podsequencing.Kubernetes.Platform.{Platform, IsDocumented}
use podsequencing.Types.{PodSequence}
use podsequencing.Sequence.Fields.{target_namespace, gate_name}
use podsequencing.Sequence.Pods.{has_gate}
use podsequencing.Sequence.Steering.{pending_required_keys}
use podsequencing.Plan.Data.{NodePlanInput, NodePlan, PodAction}
use podsequencing.Plan.Compute.{compute_node_plan}
use podsequencing.Controller.Api.{
  Api, History, Call, ◌>>=◌, patch_pod, read, node_list, pod_list, daemon_set_list, count_ungated,
}
use podsequencing.Controller.Echo.{IsEchoing}
use podsequencing.Controller.Gates.{without_gate, apply_pod_action}
use podsequencing.Controller.Release.{WasSteered, apply_pod_action-releases}
use podsequencing.Controller.NodeScoped.{
  sync_nodes, apply_actions, carry_out, with_plan, with_daemon_sets, with_pods, with_nodes,
  reconcile_node_scoped,
}
use podsequencing.Controller.Traces.{Emits, Emits-one, Emits-then, patch_status-Emits}
use podsequencing.Controller.KeyTraces.{apply_pod_action-Emits}
use podsequencing.Controller.NodeScopedOrder.{
  IsSnapshot, sync_nodes-Emits, apply_actions-Emits, set_node_scoped_status-Emits,
}

module _ (p : Platform) (api : Api) (seq : PodSequence) where
  -- Between `before` and `after` the release was carried out, from `start` on: `calls` steered its
  -- pod, and the next call takes the gate from it.
  pub record IsCarried (a : PodAction) (before after : History) : Type 0 where
    pub earlier : History
    pub start : History
    pub begins : start ≡ earlier ++ before
    pub calls : History
    pub old : Pod
    pub steered : WasSteered p api a calls start old
    pub gated : has_gate old (gate_name seq) ≡ true
    pub later : History
    pub sent :
        after ≡ later ++ (patch_pod old (without_gate old (gate_name seq)) ∷ (calls ++ start))

  IsCarried-after :
      {P : Call → Type 0} {h h' h'' : History} (a : PodAction)
      → Emits P h h'
      → IsCarried a h' h''
      → IsCarried a h h''
  IsCarried-after {h} a e k = record {
    earlier = k.earlier ++ e.calls;
    start = k.start;
    begins = k.begins ∙ ap (λ l. k.earlier ++ l) e.extends ∙ sym (append_assoc k.earlier e.calls h);
    calls = k.calls;
    old = k.old;
    steered = k.steered;
    gated = k.gated;
    later = k.later;
    sent = k.sent;
  }

  IsCarried-then :
      {P : Call → Type 0} {h h' h'' : History} (a : PodAction)
      → IsCarried a h h'
      → Emits P h' h''
      → IsCarried a h h''
  IsCarried-then a k e = record {
    earlier = k.earlier;
    start = k.start;
    begins = k.begins;
    calls = k.calls;
    old = k.old;
    steered = k.steered;
    gated = k.gated;
    later = e.calls ++ k.later;
    sent =
        e.extends
        ∙ ap (λ l. e.calls ++ l) k.sent
        ∙ sym (
            append_assoc e.calls k.later
              (patch_pod k.old (without_gate k.old (gate_name seq)) ∷ (k.calls ++ k.start)));
  }

module _ (p : Platform) (documented : IsDocumented p) (api : Api) (echoing : IsEchoing api)
    (seq : PodSequence) where
  module _ (input : NodePlanInput) (snapshot : IsSnapshot p api seq input) (plan : NodePlan)
      (planned : compute_node_plan p input ≡ ok plan) where
    apply_actions-IsCarried :
        (actions : List PodAction) (a : PodAction) (h : History)
        → All (λ b. Memᴰ b plan.ungate) actions
        → Memᴰ a actions
        → has_gate a.pod (gate_name seq) ≡ true
        → IsCarried p api seq a h (apply_actions p api seq actions h).1
    unfolding apply_actions
    apply_actions-IsCarried [] a h listed m gated = elim m [ ]
    apply_actions-IsCarried (b ∷ actions) a h (here, listed) (Memᴰ.head same) gated =
        let gated' : has_gate b.pod (gate_name seq) ≡ true =
          subst (λ x. has_gate x.pod (gate_name seq) ≡ true) same gated in
        let (no_error, old, calls, made, steered, gate_there, gate_gone) =
          apply_pod_action-releases p documented api echoing b (gate_name seq) h gated' in
        let r = apply_pod_action p api b (gate_name seq) h in
        let sent : IsCarried p api seq b h r.1 = record {
          earlier = [];
          start = h;
          begins = refl;
          calls = calls;
          old = old;
          steered = steered;
          gated = gate_there;
          later = [];
          sent = made;
        } in
        rw (no_error, ◌>>=◌)
          (IsCarried-then p api seq a (subst (λ x. IsCarried p api seq x h r.1) (sym same) sent) (
            Emits-then (Emits-one _ r.1 tt)
              (apply_actions-Emits p api seq input snapshot plan planned actions _ listed)))
    apply_actions-IsCarried (b ∷ actions) a h (here, listed) (Memᴰ.tail m) gated =
        let r = apply_pod_action p api b (gate_name seq) h in
        let applied : Emits (λ c. Unit {0}) h r.1 =
          apply_pod_action-Emits p api b (gate_name seq) h (λ c. tt) (λ pod o g. tt) in
        elim (Option-cases r.0) [
          | inr (x, f) ↦
              rw (f, ◌>>=◌)
                (IsCarried-after p api seq a applied
                  (apply_actions-IsCarried actions a r.1 listed m gated))
          | inl n ↦
              let counted = count_ungated seq.namespace seq.name b.reason in
              let calls : Emits (λ c. Unit {0}) h (counted ∷ r.1) =
                Emits-then applied (Emits-one counted r.1 tt) in
              rw (n, ◌>>=◌)
                (IsCarried-after p api seq a calls
                  (apply_actions-IsCarried actions a (counted ∷ r.1) listed m gated))
        ]

    carry_out-IsCarried :
        (orig : PodSequence) (a : PodAction) (h : History)
        → Memᴰ a plan.ungate
        → has_gate a.pod (gate_name seq) ≡ true
        → IsCarried p api seq a h (carry_out p api orig seq input.nodes input.pods plan h).1
    unfolding carry_out
    carry_out-IsCarried orig a h m gated =
        let in_use = any (λ k. k == plan.key) (pending_required_keys input.pods) in
        let s = sync_nodes p api input.nodes plan in_use plan.nodes h in
        IsCarried-after p api seq a
          (sync_nodes-Emits p api seq input.nodes plan in_use plan.nodes h)
          (IsCarried-then p api seq a
            (apply_actions-IsCarried plan.ungate a s.1 (All-of_mem plan.ungate (λ b l. l)) m gated)
            (Emits-then (set_node_scoped_status-Emits p api seq orig plan _)
              (patch_status-Emits api orig _ _ tt)))

  -- On a documented platform, against an API server that accepts patches, and where nodes, pods and
  -- DaemonSets can be listed and the plan of these answers exists: for every release of the plan
  -- whose pod is gated, `reconcileNodeScoped` sends the patch that takes the gate from that pod.
  -- Just before, either it sent the patch that puts the release's constraints into the release's
  -- pod, and the pod is the server's answer to it, which has them; or it sent nothing for the
  -- release, and the pod is the release's own, which has them already.
  pub reconcile_node_scoped-IsCarried :
      (orig : PodSequence) (nodes : List Node) (pods : List Pod) (sets : List DaemonSet)
      (plan : NodePlan) (a : PodAction) (h : History)
      → api.answer_nodes h ≡ ok nodes
      → api.answer_pods (read node_list ∷ h) (some (target_namespace seq)) p.everything ≡ ok pods
      → api.answer_daemon_sets (read pod_list ∷ read node_list ∷ h) (some (target_namespace seq))
        ≡ ok sets
      → compute_node_plan p (record {
        seq = seq;
        nodes = nodes;
        pods = pods;
        daemon_sets = sets;
        now = api.time (read daemon_set_list ∷ read pod_list ∷ read node_list ∷ h);
      })
        ≡ ok plan
      → Memᴰ a plan.ungate
      → has_gate a.pod (gate_name seq) ≡ true
      → IsCarried p api seq a h (reconcile_node_scoped p api orig seq h).1
  unfolding reconcile_node_scoped with_nodes with_pods with_daemon_sets with_plan
  reconcile_node_scoped-IsCarried orig nodes pods sets plan a h f_nodes f_pods f_sets planned m
        gated =
      let now = api.time (read daemon_set_list ∷ read pod_list ∷ read node_list ∷ h) in
      let input : NodePlanInput = record {
        seq = seq;
        nodes = nodes;
        pods = pods;
        daemon_sets = sets;
        now = now;
      } in
      let snapshot : IsSnapshot p api seq input = record {
        sequence = refl;
        nodes_at = h;
        nodes = f_nodes;
        pods_at = read node_list ∷ h;
        pods = f_pods;
        sets_at = read pod_list ∷ read node_list ∷ h;
        daemon_sets = f_sets;
      } in
      let reads : Emits (λ c. Unit {0}) h
          (read daemon_set_list ∷ read pod_list ∷ read node_list ∷ h) =
        Emits-then (Emits-then (Emits-one _ h tt) (Emits-one _ _ tt)) (Emits-one _ _ tt) in
      let k =
        carry_out-IsCarried input snapshot plan planned orig a
          (read daemon_set_list ∷ read pod_list ∷ read node_list ∷ h) m gated in
      rw (f_nodes, with_nodes, f_pods, with_pods, f_sets, with_daemon_sets, planned, with_plan)
        (IsCarried-after p api seq a reads k)
