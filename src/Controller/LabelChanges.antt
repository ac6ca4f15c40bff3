-- ===== src/Controller/LabelChanges.antt =====
-- One change of a label patch, and one round of the loop over the labels in `releaseNodeKeys`
-- (internal/controller/podsequence_controller.go).
use podsequencing.Base.{
  String, ◌≡◌, ◌≢◌, ◌⊎◌, inl, inr, refl, arith, Bool, true, false, Option, none, some, [], ◌∷◌,
  lookup, insert, ◌!=◌, string_eq, nat_eq, str_eq_iff, Bool-cases, if◌then◌else◌,
}
use podsequencing.Kubernetes.{Labels}
use podsequencing.Sequence.Keys.{released_label_value}
use podsequencing.Controller.Api.{LabelPatch}
use podsequencing.Controller.NodeKeys.{release_labels}
use podsequencing.Controller.Echo.{erase, patched, lookup-erase, lookup-insert}

lookup-erase-other :
    (key k : String) (labels : Labels) → key ≢ k → lookup k (erase key labels) ≡ lookup k labels
lookup-erase-other key k [] n = refl
lookup-erase-other key k ((j, v) ∷ labels) n =
    ground (arith, lookup-erase-other key k labels n, str_eq_iff j key, str_eq_iff j k)

lookup-insert-other :
    (key value k : String) (labels : Labels)
    → key ≢ k
    → lookup k (insert key value labels) ≡ lookup k labels
lookup-insert-other key value k [] n = ground (arith, str_eq_iff key k, n)
lookup-insert-other key value k ((j, v) ∷ labels) n = ground (
  arith,
  lookup-insert-other key value k labels n,
  str_eq_iff j key,
  str_eq_iff j k,
  str_eq_iff key k,
  n,
)

abbrev pub changed : String → Option String → Labels → Labels
changed key none labels = erase key labels
changed key (some v) labels = insert key v labels

pub patched_one :
    (key : String) (want : Option String) (rest : LabelPatch) (labels : Labels)
    → patched ((key, want) ∷ rest) labels ≡ patched rest (changed key want labels)
patched_one key none rest labels = refl
patched_one key (some v) rest labels = refl

pub lookup-changed :
    (key : String) (want : Option String) (labels : Labels)
    → lookup key (changed key want labels) ≡ want
lookup-changed key none labels = lookup-erase key labels
lookup-changed key (some v) labels = lookup-insert key v labels

pub lookup-changed-other :
    (key : String) (want : Option String) (k : String) (labels : Labels)
    → key ≢ k
    → lookup k (changed key want labels) ≡ lookup k labels
lookup-changed-other key none k labels n = lookup-erase-other key k labels n
lookup-changed-other key (some v) k labels n = lookup-insert-other key v k labels n

module _ (stale in_use : String → Bool) where
  -- One round of the loop over the labels.
  pub record IsChange (j w : String) (labels : Labels) : Type 0 where
    pub want : Option String
    pub entry :
        release_labels stale in_use ((j, w) ∷ labels)
        ≡ (j, want) ∷ release_labels stale in_use labels
    pub is_stale : stale j ≡ true
    pub wanted :
        ((in_use j ≡ false) × (want ≡ none))
        ⊎ ((in_use j ≡ true) × (want ≡ some released_label_value))

  pub round_cases :
      (j w : String) (labels : Labels)
      → ((release_labels stale in_use ((j, w) ∷ labels) ≡ release_labels stale in_use labels)
          × ((stale j ≡ false) ⊎ ((in_use j ≡ true) × (w ≡ released_label_value))))
        ⊎ IsChange j w labels
  unfolding release_labels
  round_cases j w labels = elim (Bool-cases (stale j)) [
    | inr e ↦ inl (rw (e, if◌then◌else◌) refl, inl e)
    | inl e ↦ elim (Bool-cases (in_use j)) [
      | inr f ↦ inr (record {
        want = none;
        entry = rw (e, f, if◌then◌else◌) refl;
        is_stale = e;
        wanted = inl (f, refl);
      })
      | inl f ↦ elim (Bool-cases (w != released_label_value)) [
        | inr g ↦ inl (
          rw (e, f, g, if◌then◌else◌) refl,
          inr (f, ground (arith, g, str_eq_iff w released_label_value)),
        )
        | inl g ↦ inr (record {
          want = some released_label_value;
          entry = rw (e, f, g, if◌then◌else◌) refl;
          is_stale = e;
          wanted = inr (f, refl);
        })
      ]
    ]
  ]
