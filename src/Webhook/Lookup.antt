-- ===== src/Webhook/Lookup.antt =====
-- `FindSequence` (internal/webhook/podsequence_webhook.go).
use podsequencing.Base.{
  String, ◌≡◌, inl, inr, subst, true, ◌&&◌, Option, none, some, List, [], ◌∷◌, ok, Error, arith,
  ◌==◌, string_eq, str_eq_iff, Bool-cases, Option-cases, Result-cases, if◌then◌else◌, find_first,
  All,
}
use podsequencing.Types.{PodSequence}
use podsequencing.Sequence.Fields.{target_namespace}
use podsequencing.Webhook.Handlers.{Reader, manages, search_list, find_sequence}

-- A sequence that manages pods of the namespace and is not being deleted.
pub record Manages (namespace : String) (seq : PodSequence) : Type 0 where
  pub target : target_namespace seq ≡ namespace
  pub alive : seq.deletion_timestamp ≡ none

-- `Get` answers with the object of that name and namespace.
pub record IsReading (r : Reader) : Type 0 where
  pub get_named :
      (namespace name : String) (seq : PodSequence)
      → r.get namespace name ≡ ok seq
      → (seq.namespace ≡ namespace) × (seq.name ≡ name)

manages-Manages :
    (namespace : String) (seq : PodSequence) → manages namespace seq ≡ true → Manages namespace seq
unfolding manages
manages-Manages namespace seq e = record {
  target = ground (arith, str_eq_iff (target_namespace seq) namespace);
  alive = elim (Option-cases seq.deletion_timestamp) [
    | inl n ↦ n
    | inr (t, f) ↦ absurd (ground (arith, rw f at e))
  ];
}

Manages-manages :
    (namespace : String) (seq : PodSequence) → Manages namespace seq → manages namespace seq ≡ true
unfolding manages
Manages-manages namespace seq m =
    rw (m.alive) (ground (arith, m.target, str_eq_iff (target_namespace seq) namespace))

abbrev IsNamed : String → String → PodSequence → Type 0
IsNamed namespace name seq = (seq.name ≡ name) × Manages namespace seq

abbrev Found : String → String → List PodSequence → Option PodSequence → Type 0
Found namespace name seqs (some seq) = IsNamed namespace name seq
Found namespace name seqs none = All (λ s. s.name ≡ name → Manages namespace s → ⊥) seqs

find_first-Found :
    (namespace name : String) (seqs : List PodSequence)
    → Found namespace name seqs (find_first (λ s. s.name == name && manages namespace s) seqs)
find_first-Found namespace name [] = tt
find_first-Found namespace name (s ∷ seqs) =
    let ih = find_first-Found namespace name seqs in
    elim (Bool-cases (s.name == name && manages namespace s)) [
      | inl e ↦
          rw (e, if◌then◌else◌)
            (
              ground (arith, str_eq_iff s.name name),
              manages-Manages namespace s (ground (arith, str_eq_iff s.name name)),
            )
      | inr e ↦
          rw (e, if◌then◌else◌)
            (elim (Option-cases (find_first (λ s. s.name == name && manages namespace s) seqs)) [
              | inl n ↦
                  let rest = rw n at ih in
                  rw n (
                    λ same m.
                        let yes = Manages-manages namespace s m in
                        absurd (ground (arith, str_eq_iff s.name name)),
                    rest,
                  )
              | inr (t, f) ↦ let rest = rw f at ih in rw f rest
            ])
    ]

module _ (r : Reader) (reading : IsReading r) (namespace name : String) where
  search_list-Found :
      (e : Option Error) (found : Option PodSequence)
      → search_list r namespace name e ≡ ok found
      → (seqs : List PodSequence) × (r.list ≡ ok seqs) × Found namespace name seqs found
  unfolding search_list
  search_list-Found e found h = elim (Option-cases (r.ignore_not_found e)) [
    | inr (x, f) ↦ absurd (ground (arith, rw (f, search_list) at h))
    | inl n ↦ elim (Result-cases r.list) [
      | inr (x, f) ↦ absurd (ground (arith, rw (n, f, search_list) at h))
      | inl (seqs, f) ↦ (
        seqs,
        f,
        let found_lem = rw (n, f, search_list) at h in
            let same : find_first (λ s. s.name == name && manages namespace s) seqs ≡ found =
              cc found_lem in
            subst (Found namespace name seqs) same (find_first-Found namespace name seqs),
      )
    ]
  ]

  -- Where `Get` answers with the object of the name and namespace asked for: a sequence that
  -- `FindSequence` returns has the name, manages the namespace and is not being deleted; where it
  -- returns none, the list was read and holds no such sequence.
  pub find_sequence-Found :
      (found : Option PodSequence)
      → find_sequence r namespace name ≡ ok found
      → ((seq : PodSequence) → found ≡ some seq → (seq.name ≡ name) × Manages namespace seq)
        × (found ≡ none
            → (seqs : List PodSequence) × (r.list ≡ ok seqs)
              × All (λ s. s.name ≡ name → Manages namespace s → ⊥) seqs)
  unfolding find_sequence
  find_sequence-Found found h = elim (Result-cases (r.get namespace name)) [
    | inr (x, f) ↦ read_off found (search_list-Found (some x) found (rw (f, find_sequence) at h))
    | inl (s, f) ↦ elim (Bool-cases (manages namespace s)) [
      | inr e ↦
          read_off found
            (search_list-Found none found (rw (f, e, if◌then◌else◌, find_sequence) at h))
      | inl e ↦
          let same : found ≡ some s = cc (rw (f, e, if◌then◌else◌, find_sequence) at h) in
          (
            λ seq g.
                let this : s ≡ seq = grind (arith, same, g) in
                subst (IsNamed namespace name) this
                  ((reading.get_named namespace name s f).1, manages-Manages namespace s e),
            λ n. absurd (grind (arith, same, n)),
          )
    ]
  ]
    where
      read_off :
          (found : Option PodSequence)
          → ((seqs : List PodSequence) × (r.list ≡ ok seqs) × Found namespace name seqs found)
          → ((seq : PodSequence) → found ≡ some seq → (seq.name ≡ name) × Manages namespace seq)
            × (found ≡ none
                → (seqs : List PodSequence) × (r.list ≡ ok seqs)
                  × All (λ s. s.name ≡ name → Manages namespace s → ⊥) seqs)
      read_off none (seqs, f, all) = (λ seq g. absurd (grind (arith, g)), λ n. (seqs, f, all))
      read_off (some s) (seqs, f, named) = (
        λ seq g. subst (IsNamed namespace name) (grind (arith, g)) named,
        λ n. absurd (grind (arith, n)),
      )
