-- ===== src/Tests/Platform.antt =====
-- A platform that meets every documented law: label selectors by their labels alone, the texts "30s"
-- and "1m" as durations, and one value for every hash.
use podsequencing.Base.{
  ◌<>◌, refl, Bool, true, false, not, ◌&&◌, ◌||◌, none, some, [], ◌∷◌, ok, err, other, arith, any,
  all, ◌==◌, string_eq, str_eq_iff, ltb, itoa, decimal, decimal-itoa, lookup, value_of,
  if◌then◌else◌,
}
use podsequencing.Kubernetes.{
  pos, Labels, NodeSelectorRequirement, Toleration, Taint, gt_operator, exists_operator,
}
use podsequencing.Kubernetes.Platform.{Platform, IsDocumented}

abbrev matches_labels : Labels → Labels → Bool
matches_labels wanted labels = all (λ kv. value_of kv.0 labels == kv.1) wanted

abbrev same_toleration : Toleration → Toleration → Bool
same_toleration s t =
    s.key == t.key && (s.effect == t.effect && (s.operator == t.operator && s.value == t.value))

abbrev tolerates : Toleration → Taint → Bool
tolerates s t =
    (s.key == "" || s.key == t.key)
    && ((s.effect == "" || s.effect == t.effect)
        && (s.operator == exists_operator || s.value == t.value))

abbrev requires : NodeSelectorRequirement → Labels → Bool
requires r labels = elim (lookup r.key labels) [
  | none ↦ false
  | some v ↦ elim r.values [
    | m ∷ [] ↦ r.operator == gt_operator && ltb (decimal m 0) (decimal v 0)
    | _ ↦ false
  ]
]

abbrev pub platform : Platform
platform = record {
  sha256_hex = λ s. "0123456789abcdef";
  parse_duration = λ s.
      if s == "30s"
      then ok (pos 30000000000)
      else if s == "1m"
      then ok (pos 60000000000)
      else err (record { kind = other; text = "bad" });
  duration_text = λ n. itoa n <> "ns";
  as_selector = λ s. ok (matches_labels s.match_labels);
  everything = λ labels. true;
  match_toleration = same_toleration;
  tolerates_taint = tolerates;
  node_affinity_match = λ spec node. ok true;
  has_untolerated_taint =
      λ taints tols relevant. any (λ t. relevant t && not (any (λ s. tolerates s t) tols)) taints;
  requirement_matches = requires;
}

pub platform-IsDocumented : IsDocumented platform
platform-IsDocumented = record {
  match_toleration_iff = λ s t. ground (
    arith,
    str_eq_iff s.key t.key,
    str_eq_iff s.effect t.effect,
    str_eq_iff s.operator t.operator,
    str_eq_iff s.value t.value,
  );
  tolerates_exists = λ key effect t k e. ground (arith, str_eq_iff key "", str_eq_iff effect "");
  tolerates_equal =
      λ key value effect t k e. ground (arith, str_eq_iff key "", str_eq_iff effect "");
  untolerated_taint = λ taints tols relevant. refl;
  gt_present = λ key m n labels e. ground (arith, decimal-itoa m, decimal-itoa n);
  gt_absent = λ key m labels e. ground arith;
}
