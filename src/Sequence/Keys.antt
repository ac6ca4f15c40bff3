-- ===== src/Sequence/Keys.antt =====
-- internal/sequence/sequence.go: the names of labels, annotations, gates and node keys.
use Prim.Native.String.{slice}
use podsequencing.Base.{ℕ, String, ◌<>◌, Bool, ◌&&◌, has_prefix, contains, has_suffix}
use podsequencing.Kubernetes.Platform.{Platform}

abbrev pub domain : String
domain = "podsequence.example.com/"

abbrev pub sequence_label : String
sequence_label = domain <> "sequence"

abbrev pub bypass_annotation : String
bypass_annotation = domain <> "bypass"

abbrev pub default_scheduling_gate : String
default_scheduling_gate = domain <> "sequence-gate"

abbrev pub eligibility_key_prefix : String
eligibility_key_prefix = domain <> "seq-"

abbrev pub max_node_status_entries : ℕ
max_node_status_entries = 50

abbrev pub released_label_value : String
released_label_value = "999999"

unfoldable pub eligibility_key : Platform → String → String → String
eligibility_key p namespace name =
    eligibility_key_prefix <> slice (p.sha256_hex (namespace <> ("/" <> name))) 0 10

unfoldable pub is_eligibility_key : String → Bool
is_eligibility_key key = has_prefix key eligibility_key_prefix

unfoldable pub is_legacy_group_taint_key : String → Bool
is_legacy_group_taint_key key =
    has_prefix key domain && contains key "-group-" && has_suffix key "-blocked"
