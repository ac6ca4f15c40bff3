-- ===== src/Webhook/Mutation.antt =====
-- `MutateDaemonSet` (internal/webhook/podsequence_webhook.go): the template that it leaves.
use podsequencing.Base.{
  String, ◌≡◌, inl, inr, refl, sym, ap, ◌∙◌, subst, Bool, true, false, ◌&&◌, Option, none, some, [],
  ◌∷◌, Result, ok, err, arith, ◌==◌, ◌!=◌, string_eq, str_eq_iff, Bool-cases, if◌then◌else◌, any,
  value_of, insert,
}
use podsequencing.Kubernetes.{DaemonSet, Labels}
use podsequencing.Kubernetes.Platform.{Platform, IsDocumented}
use podsequencing.Types.{PodSequence, scope_node, method_taint}
use podsequencing.Sequence.Keys.{sequence_label, eligibility_key}
use podsequencing.Sequence.Fields.{scope, eligibility_method}
use podsequencing.Sequence.Steering.{exists_toleration}
use podsequencing.Sequence.Additions.{add_tolerations_holds}
use podsequencing.Webhook.Handlers.{
  Reader, find_sequence, labelled_template, add_sequence_toleration, after_lookup,
  mutate_daemon_set,
}

value_of-insert :
    (key value : String) (labels : Labels) → value_of key (insert key value labels) ≡ value
value_of-insert key value [] = ground (arith, str_eq_iff key key)
value_of-insert key value ((k, v) ∷ labels) =
    ground (arith, value_of-insert key value labels, str_eq_iff k key, str_eq_iff key key)

labelled_template_lem :
    (ds : DaemonSet) (name : String)
    → (value_of sequence_label (labelled_template ds name).template_labels ≡ name)
      × ((labelled_template ds name).template_spec ≡ ds.template_spec)
      × ((labelled_template ds name).namespace ≡ ds.namespace)
labelled_template_lem ds name =
    elim (Bool-cases (value_of sequence_label ds.template_labels == name)) [
      | inl e ↦
          rw (e, if◌then◌else◌)
            (
              ground (arith, str_eq_iff (value_of sequence_label ds.template_labels) name),
              refl,
              refl,
            )
      | inr e ↦
          rw (e, if◌then◌else◌) (value_of-insert sequence_label name ds.template_labels, refl, refl)
    ]

labelled_template-again :
    (ds : DaemonSet) (name : String)
    → value_of sequence_label ds.template_labels ≡ name
    → (labelled_template ds name ≡ ds)
      × ((value_of sequence_label ds.template_labels != name) ≡ false)
labelled_template-again ds name e =
    let same : (value_of sequence_label ds.template_labels == name) ≡ true =
      ground (arith, str_eq_iff (value_of sequence_label ds.template_labels) name) in
    let equal : (value_of sequence_label ds.template_labels != name) ≡ false =
      rw (same, ◌!=◌) refl in
    rw (same, if◌then◌else◌) (refl, equal)

module _ (p : Platform) (r : Reader) where
  -- The template names the sequence, and where this is node-scoped and in Taint mode it tolerates
  -- the sequence's taint.
  pub record IsPrepared (name : String) (ds : DaemonSet) : Type 0 where
    pub labelled : value_of sequence_label ds.template_labels ≡ name
    pub tolerates :
        (seq : PodSequence)
        → find_sequence r ds.namespace name ≡ ok (some seq)
        → scope seq ≡ scope_node
        → eligibility_method seq ≡ method_taint
        → any
            (λ t.
              p.match_toleration t (exists_toleration (eligibility_key p seq.namespace seq.name)))
            ds.template_spec.tolerations
          ≡ true

module _ (p : Platform) (documented : IsDocumented p) (r : Reader) where
  record Holds (ds : DaemonSet) (changed : Bool) (x : Result (Option PodSequence)) : Type 0 where
    labels : (after_lookup p r ds changed x).0.template_labels ≡ ds.template_labels
    namespace : (after_lookup p r ds changed x).0.namespace ≡ ds.namespace
    tolerates :
        (seq : PodSequence)
        → x ≡ ok (some seq)
        → scope seq ≡ scope_node
        → eligibility_method seq ≡ method_taint
        → any
            (λ t.
              p.match_toleration t (exists_toleration (eligibility_key p seq.namespace seq.name)))
            (after_lookup p r ds changed x).0.template_spec.tolerations
          ≡ true
    again :
        after_lookup p r (after_lookup p r ds changed x).0 false x
        ≡ ((after_lookup p r ds changed x).0, false)

  after_lookup-Holds :
      (ds : DaemonSet) (changed : Bool) (x : Result (Option PodSequence)) → Holds ds changed x
  unfolding after_lookup add_sequence_toleration
  after_lookup-Holds ds changed (err e) = record {
    labels = refl;
    namespace = refl;
    tolerates = λ seq f. absurd (cc f);
    again = refl;
  }
  after_lookup-Holds ds changed (ok none) = record {
    labels = refl;
    namespace = refl;
    tolerates = λ seq f. absurd (cc f);
    again = refl;
  }
  after_lookup-Holds ds changed (ok (some seq)) =
      let key = eligibility_key p seq.namespace seq.name in
      let (more, e, listed, (here, done), stays) =
        add_tolerations_holds p documented ds.template_spec (exists_toleration key ∷ []) in
      elim (Bool-cases (scope seq == scope_node && eligibility_method seq == method_taint)) [
        | inl t ↦ record {
          labels = rw (t, if◌then◌else◌) refl;
          namespace = rw (t, if◌then◌else◌) refl;
          tolerates = λ seq' f s m.
              let same : seq ≡ seq' = cc f in
              subst
                (λ q.
                  any
                    (λ t.
                      p.match_toleration t
                        (exists_toleration (eligibility_key p q.namespace q.name)))
                    (after_lookup p r ds changed (ok (some seq))).0.template_spec.tolerations
                  ≡ true)
                same
                (rw (t, if◌then◌else◌)
                  (ap (λ q. any (λ t. p.match_toleration t (exists_toleration key)) q.tolerations) e
                    ∙ here));
          again = rw (t, if◌then◌else◌, stays) refl;
        }
        | inr n ↦ record {
          labels = rw (n, if◌then◌else◌) refl;
          namespace = rw (n, if◌then◌else◌) refl;
          tolerates = λ seq' f s m.
              let same : seq ≡ seq' = cc f in
              absurd (
                ground (
                  arith,
                  ap scope same,
                  ap eligibility_method same,
                  str_eq_iff (scope seq) scope_node,
                  str_eq_iff (eligibility_method seq) method_taint,
                ));
          again = rw (n, if◌then◌else◌) refl;
        }
      ]

  after_lookup_congr :
      {ds ds' : DaemonSet} {changed changed' : Bool} {x x' : Result (Option PodSequence)}
      → ds ≡ ds'
      → changed ≡ changed'
      → x ≡ x'
      → after_lookup p r ds changed x ≡ after_lookup p r ds' changed' x'
  after_lookup_congr e f g = cc

  -- On a documented platform `MutateDaemonSet` leaves a template that names the sequence and, where
  -- the sequence is found, node-scoped and in Taint mode, holds the toleration of its taint. It
  -- keeps the namespace, and changes nothing when it runs again on the result.
  pub mutate_daemon_set-IsPrepared :
      (ds : DaemonSet) (name : String)
      → IsPrepared p r name (mutate_daemon_set p r ds name).0
        × ((mutate_daemon_set p r ds name).0.namespace ≡ ds.namespace)
        × (mutate_daemon_set p r (mutate_daemon_set p r ds name).0 name
            ≡ ((mutate_daemon_set p r ds name).0, false))
  unfolding mutate_daemon_set
  mutate_daemon_set-IsPrepared ds name =
      let (labelled, spec, namespace) = labelled_template_lem ds name in
      let x = find_sequence r ds.namespace name in
      let changed = value_of sequence_label ds.template_labels != name in
      let held = after_lookup-Holds (labelled_template ds name) changed x in
      let new = (mutate_daemon_set p r ds name).0 in
      let place : new.namespace ≡ ds.namespace = held.namespace ∙ namespace in
      let marked : value_of sequence_label new.template_labels ≡ name =
        ap (value_of sequence_label) held.labels ∙ labelled in
      let (same, quiet) = labelled_template-again new name marked in
      let found : find_sequence r new.namespace name ≡ x = ap (λ n. find_sequence r n name) place in
      (
        record { labelled = marked; tolerates = λ seq f. held.tolerates seq (sym found ∙ f) },
        place,
        after_lookup_congr same quiet found ∙ held.again,
      )
