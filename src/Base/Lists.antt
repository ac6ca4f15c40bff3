-- ===== src/Base/Lists.antt =====
-- Lists measured by native numbers, predicates on every element, maps as association lists.
use Prim.Native.Nat.{ℕ, zero, suc, ◌+◌, ◌≤◌, ◌<◌}
use Prim.Native.String.{String}
use mathlib.Core.Path.{◌≡◌, refl, sym, ap, subst}
use mathlib.Core.Bool.{Bool, true, false, ◌||◌, ◌&&◌}
use mathlib.Core.Logic.{◌⊎◌, inl, inr}
use mathlib.Core.List.{List, [], ◌∷◌, ◌++◌, map, Memᴰ}
use mathlib.Core.Option.{Option, none, some}
use native.Mathlib.Omega.{arith}
use podsequencing.Base.Tests.{◌==◌, string_eq, if◌then◌else◌, Bool-cases}

module _ {ℓ} {A : Type ℓ} where
  abbrev pub length : List A → ℕ
  length [] = 0
  length (x ∷ xs) = suc (length xs)

  abbrev pub get_elem? : List A → ℕ → Option A
  get_elem? [] i = none
  get_elem? (x ∷ xs) zero = some x
  get_elem? (x ∷ xs) (suc i) = get_elem? xs i

  abbrev pub take : ℕ → List A → List A
  take zero xs = []
  take (suc n) [] = []
  take (suc n) (x ∷ xs) = x ∷ take n xs

  -- `for … { if p(x) { return true } } return false`
  abbrev pub any : (A → Bool) → List A → Bool
  any p [] = false
  any p (x ∷ xs) = p x || any p xs

  abbrev pub all : (A → Bool) → List A → Bool
  all p [] = true
  all p (x ∷ xs) = p x && all p xs

  -- `for … { if p(x) { out = append(out, x) } }`
  abbrev pub keep : (A → Bool) → List A → List A
  keep p [] = []
  keep p (x ∷ xs) = if p x then x ∷ keep p xs else keep p xs

  abbrev pub count : (A → Bool) → List A → ℕ
  count p [] = 0
  count p (x ∷ xs) = if p x then suc (count p xs) else count p xs

  abbrev pub find_first : (A → Bool) → List A → Option A
  find_first p [] = none
  find_first p (x ∷ xs) = if p x then some x else find_first p xs

  pub count_le : (p : A → Bool) (xs : List A) → count p xs ≤ length xs
  count_le p [] = omega arith
  count_le p (x ∷ xs) = ground (arith, count_le p xs)

  pub length-append : (xs ys : List A) → length (xs ++ ys) ≡ length xs + length ys
  length-append [] ys = omega arith
  length-append (x ∷ xs) ys = omega (arith, length-append xs ys)

  pub length-take-le : (n : ℕ) (xs : List A) → length (take n xs) ≤ n
  length-take-le zero xs = omega arith
  length-take-le (suc n) [] = omega arith
  length-take-le (suc n) (x ∷ xs) = omega (arith, length-take-le n xs)

  pub get_elem?-beyond : {x : A} (xs : List A) (i : ℕ) → get_elem? xs i ≡ some x → ¬ (length xs ≤ i)
  get_elem?-beyond [] i e h = cc
  get_elem?-beyond (y ∷ xs) zero e h = absurd (omega arith)
  get_elem?-beyond (y ∷ xs) (suc i) e h = get_elem?-beyond xs i e (omega arith)

  pub any-true : (p : A → Bool) (xs : List A) → any p xs ≡ true → (x : A) × Memᴰ x xs × (p x ≡ true)
  any-true p [] h = elim (Bool-cases true) [
    | inl e ↦ absurd (grind arith)
    | inr e ↦ absurd (grind arith)
  ]
  any-true p (x ∷ xs) h = elim (Bool-cases (p x)) [
    | inl e ↦ (x, Memᴰ.head refl, e)
    | inr e ↦ let (y, m, t) = any-true p xs (ground arith) in (y, Memᴰ.tail m, t)
  ]

module _ {ℓ} {A : Type ℓ} where
  pub any_of_mem : {x : A} (p : A → Bool) (xs : List A) → Memᴰ x xs → p x ≡ true → any p xs ≡ true
  any_of_mem p [] m h = elim m [ ]
  any_of_mem p (y ∷ ys) (Memᴰ.head same) h =
      let here : p y ≡ true = subst (λ z. p z ≡ true) same h in ground (arith, here)
  any_of_mem p (y ∷ ys) (Memᴰ.tail m) h = ground (arith, any_of_mem p ys m h)

  pub mem_keep : {x : A} (p : A → Bool) (xs : List A) → Memᴰ x xs → p x ≡ true → Memᴰ x (keep p xs)
  mem_keep p [] m h = elim m [ ]
  mem_keep p (y ∷ ys) (Memᴰ.head same) h =
      rw (subst (λ z. p z ≡ true) same h, if◌then◌else◌) (Memᴰ.head same)
  mem_keep p (y ∷ ys) (Memᴰ.tail m) h = elim (Bool-cases (p y)) [
    | inl e ↦ rw (e, if◌then◌else◌) (Memᴰ.tail (mem_keep p ys m h))
    | inr e ↦ rw (e, if◌then◌else◌) (mem_keep p ys m h)
  ]

  pub mem_kept :
      {x : A} (p : A → Bool) (xs : List A) → Memᴰ x (keep p xs) → Memᴰ x xs × (p x ≡ true)
  mem_kept p [] m = elim m [ ]
  mem_kept p (y ∷ ys) m = elim (Bool-cases (p y)) [
    | inr e ↦ let (l, h) = mem_kept p ys (rw (e, if◌then◌else◌) at m) in (Memᴰ.tail l, h)
    | inl e ↦ elim (rw (e, if◌then◌else◌) at m) [
      | Memᴰ.head same ↦ (Memᴰ.head same, subst (λ z. p z ≡ true) (sym same) e)
      | Memᴰ.tail m' ↦ let (l, h) = mem_kept p ys m' in (Memᴰ.tail l, h)
    ]
  ]

  pub mem_append_left : {x : A} (xs ys : List A) → Memᴰ x xs → Memᴰ x (xs ++ ys)
  mem_append_left [] ys m = elim m [ ]
  mem_append_left (y ∷ xs) ys (Memᴰ.head e) = Memᴰ.head e
  mem_append_left (y ∷ xs) ys (Memᴰ.tail m) = Memᴰ.tail (mem_append_left xs ys m)

  pub mem_append_right : {x : A} (xs ys : List A) → Memᴰ x ys → Memᴰ x (xs ++ ys)
  mem_append_right [] ys m = m
  mem_append_right (y ∷ xs) ys m = Memᴰ.tail (mem_append_right xs ys m)

  pub mem_split : {x : A} (xs ys : List A) → Memᴰ x (xs ++ ys) → Memᴰ x xs ⊎ Memᴰ x ys
  mem_split [] ys m = inr m
  mem_split (y ∷ xs) ys (Memᴰ.head e) = inl (Memᴰ.head e)
  mem_split (y ∷ xs) ys (Memᴰ.tail m) = elim (mem_split xs ys m) [
    | inl l ↦ inl (Memᴰ.tail l)
    | inr r ↦ inr r
  ]

  pub mem_one : {x y : A} → Memᴰ x (y ∷ []) → x ≡ y
  mem_one (Memᴰ.head e) = e
  mem_one (Memᴰ.tail m) = elim m [ ]

module _ {ℓ} {A : Type ℓ} where
  same_length_cancel : (xs ys zs : List A) → length xs ≡ length ys → xs ++ zs ≡ ys ++ zs → xs ≡ ys
  same_length_cancel [] [] zs l e = refl
  same_length_cancel [] (y ∷ ys) zs l e = absurd (omega (arith, l))
  same_length_cancel (x ∷ xs) [] zs l e = absurd (omega (arith, l))
  same_length_cancel (x ∷ xs) (y ∷ ys) zs l e =
      let rest = same_length_cancel xs ys zs (omega (arith, l)) (cc e) in cc (e, rest)

  pub append_cancel : (xs ys zs : List A) → xs ++ zs ≡ ys ++ zs → xs ≡ ys
  append_cancel xs ys zs e =
      let lengths : length (xs ++ zs) ≡ length (ys ++ zs) = ap length e in
      same_length_cancel xs ys zs (omega (arith, lengths, length-append xs zs, length-append ys zs))
        e

module _ {ℓ κ} {A : Type ℓ} where
  abbrev pub All : (A → Type κ) → List A → Type κ
  All P [] = Unit
  All P (x ∷ xs) = P x × All P xs

  pub All-append : (P : A → Type κ) (xs ys : List A) → All P xs → All P ys → All P (xs ++ ys)
  All-append P [] ys px py = py
  All-append P (x ∷ xs) ys (first, rest) py = (first, All-append P xs ys rest py)

  pub All-split : (P : A → Type κ) (xs ys : List A) → All P (xs ++ ys) → All P xs × All P ys
  All-split P [] ys h = (tt, h)
  All-split P (x ∷ xs) ys (first, rest) =
      let (left, right) = All-split P xs ys rest in ((first, left), right)

module _ {ℓ κ} {A : Type ℓ} {P : A → Type κ} where
  pub All-of_mem : (xs : List A) → ((x : A) → Memᴰ x xs → P x) → All P xs
  All-of_mem [] h = tt
  All-of_mem (x ∷ xs) h = (h x (Memᴰ.head refl), All-of_mem xs (λ y m. h y (Memᴰ.tail m)))

pub mem_map {ℓ κ} :
    {A : Type ℓ} {B : Type κ} {x : A} {xs : List A} (f : A → B) → Memᴰ x xs → Memᴰ (f x) (map f xs)
mem_map f (Memᴰ.head same) = Memᴰ.head (ap f same)
mem_map f (Memᴰ.tail m) = Memᴰ.tail (mem_map f m)

pub mem_mapped {ℓ κ} :
    {A : Type ℓ} {B : Type κ} {y : B} (f : A → B) (xs : List A)
    → Memᴰ y (map f xs)
    → (x : A) × Memᴰ x xs × (y ≡ f x)
mem_mapped f [] m = elim m [ ]
mem_mapped f (x ∷ xs) (Memᴰ.head same) = (x, Memᴰ.head refl, same)
mem_mapped f (x ∷ xs) (Memᴰ.tail m) = let (z, l, e) = mem_mapped f xs m in (z, Memᴰ.tail l, e)

-- Two lists of one length whose elements are related in order.
abbrev pub Pairwise {ℓ κ} : {A : Type ℓ} {B : Type κ} → (A → B → Type 0) → List A → List B → Type 0
Pairwise R [] [] = Unit
Pairwise R (x ∷ xs) (y ∷ ys) = R x y × Pairwise R xs ys
Pairwise R _ _ = ⊥

pub All-mem {ℓ κ} : {A : Type ℓ} (P : A → Type κ) {x : A} (xs : List A) → All P xs → Memᴰ x xs → P x
All-mem P [] h m = elim m [ ]
All-mem P (y ∷ xs) (here, rest) (Memᴰ.head same) = subst P (sym same) here
All-mem P (y ∷ xs) (here, rest) (Memᴰ.tail m) = All-mem P xs rest m

pub All-weaken {ℓ κ μ} :
    {A : Type ℓ} {P : A → Type κ} {Q : A → Type μ} (xs : List A)
    → ((x : A) → P x → Q x)
    → All P xs
    → All Q xs
All-weaken [] f all = tt
All-weaken (x ∷ xs) f (first, rest) = (f x first, All-weaken xs f rest)

module _ {ℓ} {A : Type ℓ} where
  -- The elements that `take` keeps stand before `n`.
  pub take_before :
      (n : ℕ) (xs : List A) → All (λ x. (i : ℕ) × (get_elem? xs i ≡ some x) × (i < n)) (take n xs)
  take_before zero xs = tt
  take_before (suc n) [] = tt
  take_before (suc n) (x ∷ xs) = (
    (0, refl, omega arith),
    All-weaken (take n xs) (λ y (i, at, lt). (suc i, at, omega arith)) (take_before n xs),
  )

  pub indexed : (xs : List A) → All (λ x. (i : ℕ) × (get_elem? xs i ≡ some x) × (i < length xs)) xs
  indexed [] = tt
  indexed (x ∷ xs) = (
    (0, refl, omega arith),
    All-weaken xs (λ y (i, at, lt). (suc i, at, omega arith)) (indexed xs),
  )

  pub get_elem?-mem : {x : A} (n : ℕ) (xs : List A) → get_elem? xs n ≡ some x → Memᴰ x xs
  get_elem?-mem n [] e = absurd (ground (arith, e))
  get_elem?-mem zero (y ∷ xs) e = Memᴰ.head (cc e)
  get_elem?-mem (suc n) (y ∷ xs) e = Memᴰ.tail (get_elem?-mem n xs e)

  pub length-le-get_elem? : (n : ℕ) (xs : List A) → get_elem? xs n ≡ none → length xs ≤ n
  length-le-get_elem? n [] e = omega arith
  length-le-get_elem? zero (x ∷ xs) e = absurd (ground (arith, e))
  length-le-get_elem? (suc n) (x ∷ xs) e = omega (arith, length-le-get_elem? n xs e)

  pub get_elem?-before :
      (n : ℕ) (xs : List A) (y : A)
      → get_elem? xs (suc n) ≡ some y
      → (x : A) × (get_elem? xs n ≡ some x)
  get_elem?-before n [] y e = absurd (ground (arith, e))
  get_elem?-before zero (x ∷ xs) y e = (x, refl)
  get_elem?-before (suc n) (x ∷ xs) y e = get_elem?-before n xs y e

-- Go maps keyed by text. A missing key reads as `none`; the first entry of a key counts.
module _ {ℓ} {V : Type ℓ} where
  abbrev pub lookup : String → List (String × V) → Option V
  lookup key [] = none
  lookup key ((name, value) ∷ entries) = if name == key then some value else lookup key entries

  abbrev pub insert : String → V → List (String × V) → List (String × V)
  insert key new [] = (key, new) ∷ []
  insert key new ((name, old) ∷ entries) =
      let behind = insert key new entries in
      if name == key then (key, new) ∷ entries else (name, old) ∷ behind

-- `m[k]` of a `map[string]string`, and `m[k]` of a `map[string]bool`.
abbrev pub value_of : String → List (String × String) → String
value_of k [] = ""
value_of k ((j, v) ∷ m) = if j == k then v else value_of k m
