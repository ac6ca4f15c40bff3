-- ===== src/Webhook/Gating.antt =====
-- When the pod webhook (internal/webhook/podsequence_webhook.go) adds the gate.
use podsequencing.Base.{
  ℕ, String, ◌≡◌, ◌≢◌, ◌↔◌, inl, inr, refl, sym, ap, ◌∙◌, true, false, none, some, List, [], ◌∷◌,
  ◌++◌, ok, arith, ◌==◌, string_eq, str_eq_iff, Bool-cases, Option-cases, Result-cases,
  if◌then◌else◌, any, value_of,
}
use podsequencing.Kubernetes.{Pod}
use podsequencing.Kubernetes.Platform.{Platform}
use podsequencing.Types.{PodSequence}
use podsequencing.Sequence.Keys.{sequence_label}
use podsequencing.Sequence.Fields.{gate_name}
use podsequencing.Sequence.Groups.{group_index_for_pod}
use podsequencing.Sequence.Pods.{has_gate, is_bypassed}
use podsequencing.Webhook.Handlers.{Reader, patched, find_sequence, with_gate, gate_pod, admit_pod}

module _ (p : Platform) (r : Reader) where
  -- The pod waits for a sequence, and `new` is the pod with that sequence's gate.
  pub record IsGated (pod new : Pod) : Type 0 where
    pub unbound : pod.spec.node_name ≡ ""
    pub named : value_of sequence_label pod.labels ≢ ""
    pub sequenced : is_bypassed pod ≡ false
    pub seq : PodSequence
    pub found : find_sequence r pod.namespace (value_of sequence_label pod.labels) ≡ ok (some seq)
    pub group : ℕ
    pub in_group : group_index_for_pod p seq pod ≡ some group
    pub missing : has_gate pod (gate_name seq) ≡ false
    pub gated : new ≡ with_gate pod (gate_name seq)

  module _ (marshals : (pod : Pod) → r.marshal_pod pod ≡ none) where
    gate_pod-patched :
        (pod new : Pod) (seq : PodSequence)
        → gate_pod p r pod seq ≡ patched new
        → (group : ℕ) × (group_index_for_pod p seq pod ≡ some group)
          × (has_gate pod (gate_name seq) ≡ false)
          × (new ≡ with_gate pod (gate_name seq))
    unfolding gate_pod
    gate_pod-patched pod new seq h = elim (Option-cases (group_index_for_pod p seq pod)) [
      | inl n ↦ absurd (cc (rw (n, gate_pod) at h))
      | inr (i, f) ↦ elim (Bool-cases (has_gate pod (gate_name seq))) [
        | inl g ↦ absurd (cc (rw (f, g, if◌then◌else◌, gate_pod) at h))
        | inr g ↦ (
          i,
          f,
          g,
          cc (rw (f, g, if◌then◌else◌, marshals (with_gate pod (gate_name seq)), gate_pod) at h),
        )
      ]
    ]

    gate_of : {pod new : Pod} (g : IsGated pod new) → gate_pod p r pod g.seq ≡ patched new
    unfolding gate_pod
    gate_of {pod} {new} g =
        rw
          (
            gate_pod,
            g.in_group,
            g.missing,
            if◌then◌else◌,
            marshals (with_gate pod (gate_name g.seq)),
            g.gated,
          )
          refl

    found :
        (pod new : Pod)
        → (pod.spec.node_name == "") ≡ true
        → (value_of sequence_label pod.labels == "") ≡ false
        → is_bypassed pod ≡ false
        → admit_pod p r pod ≡ patched new
        → (seq : PodSequence) × (find_sequence r pod.namespace (value_of sequence_label pod.labels)
            ≡ ok (some seq))
          × (gate_pod p r pod seq ≡ patched new)
    unfolding admit_pod
    found pod new b n s h =
        elim (Result-cases (find_sequence r pod.namespace (value_of sequence_label pod.labels))) [
          | inr (x, f) ↦ absurd (cc (rw (b, n, s, f, if◌then◌else◌, admit_pod) at h))
          | inl (o, f) ↦ elim (Option-cases o) [
            | inl e ↦ absurd (cc (rw (b, n, s, f, e, if◌then◌else◌, admit_pod) at h))
            | inr (seq, e) ↦ (seq, f ∙ ap ok e, rw (b, n, s, f, e, if◌then◌else◌, admit_pod) at h)
          ]
        ]

    -- Where pods can be encoded, the pod webhook patches a pod exactly when it is not bound to a
    -- node, names a sequence, is not bypassed, the sequence is found, has a group of the pod, and
    -- its gate is missing; the patch adds that gate behind the others.
    pub admit_pod-patched_iff :
        (pod new : Pod) → (admit_pod p r pod ≡ patched new) ↔ IsGated pod new
    unfolding admit_pod gate_pod
    admit_pod-patched_iff pod new =
        let name = value_of sequence_label pod.labels in
        let named = str_eq_iff name "" in
        let unbound = str_eq_iff pod.spec.node_name "" in
        (
          λ h. elim (Bool-cases (pod.spec.node_name == "")) [
            | inr e ↦ absurd (cc (rw (e, if◌then◌else◌, admit_pod) at h))
            | inl b ↦ elim (Bool-cases (name == "")) [
              | inl e ↦ absurd (cc (rw (b, e, if◌then◌else◌, admit_pod) at h))
              | inr n ↦ elim (Bool-cases (is_bypassed pod)) [
                | inl e ↦ absurd (cc (rw (b, n, e, if◌then◌else◌, admit_pod) at h))
                | inr s ↦
                    let (seq, f, rest) = found pod new b n s h in
                    let (group, in_group, missing, gated) = gate_pod-patched pod new seq rest in
                    record {
                      unbound = ground (arith, unbound);
                      named = λ q. absurd (ground (arith, named));
                      sequenced = s;
                      seq = seq;
                      found = f;
                      group = group;
                      in_group = in_group;
                      missing = missing;
                      gated = gated;
                    }
              ]
            ]
          ],
          λ g.
              let known : (name == "") ≡ false = ground (arith, named, g.named) in
              let free : (pod.spec.node_name == "") ≡ true = ground (arith, unbound, g.unbound) in
              rw (free, known, g.sequenced, g.found, if◌then◌else◌, gate_of g) refl,
        )

    has_gate-append :
        (gate : String) (gates : List String) → any (λ g. g == gate) (gates ++ (gate ∷ [])) ≡ true
    has_gate-append gate [] = ground (arith, str_eq_iff gate gate)
    has_gate-append gate (g ∷ gates) = ground (arith, has_gate-append gate gates)

    -- Where pods can be encoded, a pod that the webhook patched has the gate of the sequence that
    -- it names, and the webhook does not patch it again.
    pub admit_pod-once :
        (pod new : Pod)
        → admit_pod p r pod ≡ patched new
        → (seq : PodSequence) × (find_sequence r new.namespace (value_of sequence_label new.labels)
            ≡ ok (some seq))
          × (has_gate new (gate_name seq) ≡ true)
          × ((again : Pod) → admit_pod p r new ≢ patched again)
    unfolding has_gate
    admit_pod-once pod new h =
        let g = (admit_pod-patched_iff pod new).0 h in
        let here : has_gate new (gate_name g.seq) ≡ true =
          ap (λ n. has_gate n (gate_name g.seq)) g.gated
          ∙ has_gate-append (gate_name g.seq) pod.spec.scheduling_gates in
        let found' : find_sequence r new.namespace (value_of sequence_label new.labels)
            ≡ ok (some g.seq) =
          ap (λ n. find_sequence r n.namespace (value_of sequence_label n.labels)) g.gated
          ∙ g.found in
        (
          g.seq,
          found',
          here,
          λ again q.
              let g' = (admit_pod-patched_iff new again).0 q in
              let same : g.seq ≡ g'.seq = cc (sym found' ∙ g'.found) in
              let lacks = g'.missing in
              absurd (cc (sym here ∙ ap (λ s. has_gate new (gate_name s)) same ∙ lacks)),
        )
