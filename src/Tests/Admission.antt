-- ===== src/Tests/Admission.antt =====
-- The webhooks on one sequence that the list holds, and the theorems on them applied.
use podsequencing.Base.{
  ◌≡◌, ◌≢◌, ◌↔◌, refl, true, false, none, some, List, [], ◌∷◌, ok, err, not_found, All, value_of,
}
use podsequencing.Kubernetes.{Pod, DaemonSet}
use podsequencing.Types.{PodSequence}
use podsequencing.Sequence.Keys.{sequence_label}
use podsequencing.Sequence.Fields.{target_namespace, gate_name}
use podsequencing.Sequence.Pods.{has_gate}
use podsequencing.Webhook.Handlers.{
  Reader, patched, manages, search_list, find_sequence, with_gate, gate_pod, admit_pod,
  mutate_daemon_set,
}
use podsequencing.Sequence.Keys.{default_scheduling_gate}
use podsequencing.Webhook.Lookup.{Manages, IsReading, find_sequence-Found}
use podsequencing.Webhook.Gating.{IsGated, admit_pod-patched_iff, admit_pod-once}
use podsequencing.Webhook.Mutation.{IsPrepared, mutate_daemon_set-IsPrepared}
use podsequencing.Tests.Platform.{platform, platform-IsDocumented}
use podsequencing.Tests.Plans.{sequence, pod_of, spec_on, program}

abbrev pub reader : Reader
reader = record {
  get = λ namespace name. err (record { kind = not_found; text = "missing" });
  list = ok (sequence ∷ []);
  ignore_not_found = λ e. none;
  marshal_pod = λ pod. none;
  marshal_daemon_set = λ ds. none;
}

reader-IsReading : IsReading reader
reader-IsReading = record { get_named = λ namespace name seq e. absurd (cc e) }

abbrev pub fresh_pod : Pod
fresh_pod = pod_of "csi-2" "csi" (spec_on "" []) []

abbrev pub gated_pod : Pod
gated_pod = with_gate fresh_pod default_scheduling_gate

abbrev csi_daemon_set : DaemonSet
csi_daemon_set = record {
  name = "csi";
  namespace = "infra";
  uid = "1";
  labels = (sequence_label, "boot") ∷ [];
  deletion_timestamp = none;
  template_labels = ("app", "csi") ∷ [];
  template_spec = spec_on "" [];
}

find_sequence-Found_example :
    ((seq : PodSequence) → some sequence ≡ some seq → (seq.name ≡ "boot") × Manages "infra" seq)
    × (some sequence ≡ none
        → (seqs : List PodSequence) × (reader.list ≡ ok seqs)
          × All (λ s. s.name ≡ "boot" → Manages "infra" s → ⊥) seqs)
unfolding find_sequence search_list manages target_namespace
find_sequence-Found_example =
    find_sequence-Found reader reader-IsReading "infra" "boot" (some sequence) refl

admit_pod-patched_iff_example :
    (admit_pod platform reader fresh_pod ≡ patched gated_pod)
    ↔ IsGated platform reader fresh_pod gated_pod
admit_pod-patched_iff_example =
    admit_pod-patched_iff platform reader (λ pod. refl) fresh_pod gated_pod

admit_pod-once_example :
    (seq : PodSequence) × (find_sequence reader "infra" (value_of sequence_label gated_pod.labels)
      ≡ ok (some seq))
    × (has_gate gated_pod (gate_name seq) ≡ true)
    × ((again : Pod) → admit_pod platform reader gated_pod ≢ patched again)
unfolding program admit_pod gate_pod find_sequence search_list manages
admit_pod-once_example = admit_pod-once platform reader (λ pod. refl) fresh_pod gated_pod refl

mutate_daemon_set-IsPrepared_example :
    IsPrepared platform reader "boot" (mutate_daemon_set platform reader csi_daemon_set "boot").0
    × ((mutate_daemon_set platform reader csi_daemon_set "boot").0.namespace ≡ "infra")
    × (mutate_daemon_set platform reader
          (mutate_daemon_set platform reader csi_daemon_set "boot").0
          "boot"
        ≡ ((mutate_daemon_set platform reader csi_daemon_set "boot").0, false))
mutate_daemon_set-IsPrepared_example =
    mutate_daemon_set-IsPrepared platform platform-IsDocumented reader csi_daemon_set "boot"
