-- ===== src/Prelude/Text.antt =====
-- Template literals and separators over strings.
use Prim.Native.Nat.{ℕ, zero, suc, ◌%◌, ◌/◌}
use Prim.Native.Char.{Char, code}
use nestjs_amqp.Prelude.Tests.{nat_eq, if◌then◌else◌}
use Prim.Native.String
use Prim.Native.String.{String}
use mathlib.Core.Path.{◌≡◌, refl, sym, ap, ◌∙◌, subst}
use mathlib.Core.Bool.{true}
use mathlib.Core.List.{List, [], ◌∷◌, ◌++◌}
use text.Mathlib.Text.{starts_with}
use text.Mathlib.TextEquality.{starts_with_iff}
use text.Mathlib.TextBridge.{IsPrefix}
use text.Mathlib.TextLemmas.{nil-append, append_assoc, prefix-append}

-- `${a}${b}…`, the parts of a template literal in order
abbrev pub template : List String → String
template [] = ""
template (s ∷ ss) = String.◌++◌ s (template ss)

pub template-append :
    (xs ys : List String) → template (xs ++ ys) ≡ String.◌++◌ (template xs) (template ys)
template-append [] ys = sym (nil-append (template ys))
template-append (x ∷ xs) ys =
    ap (String.◌++◌ x) (template-append xs ys) ∙ sym (append_assoc x (template xs) (template ys))

-- A template starts with each of its own beginnings.
pub starts_with-template :
    (xs ys : List String) → starts_with (template (xs ++ ys)) (template xs) ≡ true
starts_with-template xs ys = (starts_with_iff (template (xs ++ ys)) (template xs)).1 (
    subst (λ s. IsPrefix (template xs) s) (sym (template-append xs ys))
      (prefix-append (template xs) (template ys)))

-- a character in front of the first part
abbrev pub onto_first : Char → List String → List String
onto_first c [] = String.◌∷◌ c "" ∷ []
onto_first c (w ∷ ws) = String.◌∷◌ c w ∷ ws

-- s.split(sep) for a separator of one character, given by its code; '' splits into ['']
unfoldable pub split : ℕ → String → List String
split sep String.[] = "" ∷ []
split sep (String.◌∷◌ c s) =
    let rest = split sep s in if nat_eq (code c) sep then "" ∷ rest else onto_first c rest

abbrev digit : ℕ → String
digit zero = "0"
digit (suc zero) = "1"
digit (suc (suc zero)) = "2"
digit (suc (suc (suc zero))) = "3"
digit (suc (suc (suc (suc zero)))) = "4"
digit (suc (suc (suc (suc (suc zero))))) = "5"
digit (suc (suc (suc (suc (suc (suc zero)))))) = "6"
digit (suc (suc (suc (suc (suc (suc (suc zero))))))) = "7"
digit (suc (suc (suc (suc (suc (suc (suc (suc zero)))))))) = "8"
digit n = "9"

-- a number loses a digit in each round, so `suc n` rounds are enough for `n`
decimal_onto : ℕ → ℕ → String → String
decimal_onto zero n acc = acc
decimal_onto (suc rounds) n acc =
    let onto = String.◌++◌ (digit (n % 10)) acc in
    let rest = decimal_onto rounds (n / 10) onto in if nat_eq (n / 10) 0 then onto else rest

-- `${n}`
unfoldable pub decimal : ℕ → String
unfolding decimal_onto
decimal n = decimal_onto (suc n) n ""

decimal_tests : decimal 0 ≡ "0"
unfolding decimal
decimal_tests = refl

decimal_tests' : decimal 60250 ≡ "60250"
unfolding decimal
decimal_tests' = refl
