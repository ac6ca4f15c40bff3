-- ===== src/Base/Text.antt =====
-- What the code uses of Go's `strings` and `strconv`.
use text.Mathlib.TextLemmas.{cons-append, nil-append}
use Prim.Native.Char.{code}
use native.Mathlib.Omega.{arith}
use mathlib.Core.Logic.{inl, inr}
use mathlib.Core.Path.{sym, ap, ◌∙◌}
use podsequencing.Base.Tests.{Bool-cases}
use Prim.Native.Nat.{◌+◌, ◌*◌, ◌<◌, ℕ, zero, suc, ◌-◌, ◌/◌, ◌%◌}
use Prim.Native.String.{String, len, slice, compare}
use Prim.Native.String
use mathlib.Core.Path.{◌≡◌, refl}
use mathlib.Core.Bool.{Bool, true, false, ◌&&◌}
use mathlib.Core.Option.{none, some}
use mathlib.Core.List.{List, [], ◌∷◌}
use text.Mathlib.Text.{is_lt, find?, starts_with}
use podsequencing.Base.Tests.{◌==◌, string_eq, leb, ltb, if◌then◌else◌}

-- `strings.HasPrefix`, `strings.Contains`, `strings.HasSuffix`.
abbrev pub has_prefix : String → String → Bool
has_prefix s prefix = starts_with s prefix

abbrev pub contains : String → String → Bool
contains s part = elim (find? s part) [ none ↦ false | some _ ↦ true ]

abbrev pub has_suffix : String → String → Bool
has_suffix s suffix = leb (len suffix) (len s) && slice s (len s - len suffix) (len s) == suffix

-- `s < t` on texts.
abbrev pub text_lt : String → String → Bool
text_lt s t = is_lt (compare s t)

-- `strings.Join`
abbrev pub join : List String → String → String
join [] sep = ""
join (s ∷ []) sep = s
join (s ∷ t ∷ rest) sep = String.◌++◌ s (String.◌++◌ sep (join (t ∷ rest) sep))

-- The decimal digit of `n % 10`.
abbrev digit : ℕ → String
digit zero = "0"
digit (suc zero) = "1"
digit (suc (suc zero)) = "2"
digit (suc (suc (suc zero))) = "3"
digit (suc (suc (suc (suc zero)))) = "4"
digit (suc (suc (suc (suc (suc zero))))) = "5"
digit (suc (suc (suc (suc (suc (suc zero)))))) = "6"
digit (suc (suc (suc (suc (suc (suc (suc zero))))))) = "7"
digit (suc (suc (suc (suc (suc (suc (suc (suc zero)))))))) = "8"
digit _ = "9"

-- The digits of `n` before `out`. Each round takes a digit off, so `suc n` rounds are enough.
unfoldable pub digits_onto : ℕ → ℕ → String → String
digits_onto zero n out = out
digits_onto (suc fuel) n out =
    let out' = String.◌++◌ (digit (n % 10)) out in
    let rest = digits_onto fuel (n / 10) out' in if ltb n 10 then out' else rest

-- `strconv.Itoa` of a number that is not negative.
unfoldable pub itoa : ℕ → String
unfolding digits_onto
itoa n = digits_onto (suc n) n ""

itoa_tests : (itoa 0 ≡ "0") × (itoa 9 ≡ "9") × (itoa 120 ≡ "120") × (itoa 999999 ≡ "999999")
unfolding itoa
itoa_tests = (refl, refl, refl, refl)

-- The number that a text of digits stands for, read on from `acc`.
abbrev pub decimal : String → ℕ → ℕ
decimal String.[] acc = acc
decimal (String.◌∷◌ c s) acc = decimal s (acc * 10 + (code c - b'0'))

decimal-digit :
    (d acc : ℕ) (out : String)
    → d < 10
    → decimal (String.◌++◌ (digit d) out) acc ≡ decimal out (acc * 10 + d)
decimal-digit zero acc out h = rw (cons-append, nil-append)
decimal-digit (suc zero) acc out h = rw (cons-append, nil-append)
decimal-digit (suc (suc zero)) acc out h = rw (cons-append, nil-append)
decimal-digit (suc (suc (suc zero))) acc out h = rw (cons-append, nil-append)
decimal-digit (suc (suc (suc (suc zero)))) acc out h = rw (cons-append, nil-append)
decimal-digit (suc (suc (suc (suc (suc zero))))) acc out h = rw (cons-append, nil-append)
decimal-digit (suc (suc (suc (suc (suc (suc zero)))))) acc out h = rw (cons-append, nil-append)
decimal-digit (suc (suc (suc (suc (suc (suc (suc zero))))))) acc out h =
    rw (cons-append, nil-append)
decimal-digit (suc (suc (suc (suc (suc (suc (suc (suc zero)))))))) acc out h =
    rw (cons-append, nil-append)
decimal-digit (suc (suc (suc (suc (suc (suc (suc (suc (suc zero))))))))) acc out h =
    rw (cons-append, nil-append)
decimal-digit (suc (suc (suc (suc (suc (suc (suc (suc (suc (suc d)))))))))) acc out h =
    absurd (omega arith)

decimal-digits_onto :
    (fuel n : ℕ) (out : String) → n < fuel → decimal (digits_onto fuel n out) 0 ≡ decimal out n
unfolding digits_onto
decimal-digits_onto zero n out h = absurd (omega arith)
decimal-digits_onto (suc fuel) n out h = elim (Bool-cases (ltb n 10)) [
  | inl e ↦
      rw (e, if◌then◌else◌)
        (decimal-digit (n % 10) 0 out (omega arith) ∙ ap (λ m. decimal out m) (ground arith))
  | inr e ↦
      rw (e, if◌then◌else◌)
        (decimal-digits_onto fuel (n / 10) (String.◌++◌ (digit (n % 10)) out) (ground arith)
          ∙ decimal-digit (n % 10) (n / 10) out (omega arith)
          ∙ ap (λ m. decimal out m) (omega arith))
]

-- Reading back what `Itoa` printed gives the number.
pub decimal-itoa : (n : ℕ) → decimal (itoa n) 0 ≡ n
unfolding itoa
decimal-itoa n = decimal-digits_onto (suc n) n "" (omega arith)

pub itoa-injective : (m n : ℕ) → itoa m ≡ itoa n → m ≡ n
itoa-injective m n e = sym (decimal-itoa m) ∙ ap (λ s. decimal s 0) e ∙ decimal-itoa n
