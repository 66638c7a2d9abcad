-- ===== src/Prelude/TextOrder.antt =====
-- The order of `<` on strings: lexicographic by UTF-16 units.
use Prim.Native.Nat.{ℕ}
use Prim.Native.Char.{Char, code}
use Prim.Native.String.{String}
use mathlib.Core.Path.{◌≡◌, refl, ap, ◌∙◌}
use mathlib.Core.Bool.{Bool, true, false, ◌&&◌, ◌||◌}
use native.Mathlib.Omega.{arith}
use Prim.Native.Nat.{compare as compare_ℕ}
use text.Mathlib.TextEquality.{codes_equal}
use text.Mathlib.TextPositions.{compare_self}
use nestjs_amqp.Prelude.Tests.{nat_eq, ltb, if◌then◌else◌}

-- A character beyond U+FFFF is written with two units below U+E000.
abbrev plane : ℕ → ℕ
plane n = if ltb n 57344 then 0 else if ltb n 65536 then 2 else 1

-- the order of two characters, by their codes
abbrev unit_ltb : ℕ → ℕ → Bool
unit_ltb m n = ltb (plane m) (plane n) || (nat_eq (plane m) (plane n) && ltb m n)

unfoldable pub text_ltb : String → String → Bool
text_ltb String.[] String.[] = false
text_ltb String.[] (String.◌∷◌ d t) = true
text_ltb (String.◌∷◌ c s) String.[] = false
text_ltb (String.◌∷◌ c s) (String.◌∷◌ d t) =
    let rest = text_ltb s t in unit_ltb (code c) (code d) || (nat_eq (code c) (code d) && rest)

step_trans :
    (l m n : ℕ) (p q r : Bool)
    → (p ≡ true → q ≡ true → r ≡ true)
    → unit_ltb l m || (nat_eq l m && p) ≡ true
    → unit_ltb m n || (nat_eq m n && q) ≡ true
    → unit_ltb l n || (nat_eq l n && r) ≡ true
step_trans l m n p q r f h k = ground (arith, f, h, k)

pub text_ltb_trans :
    (s t u : String) → text_ltb s t ≡ true → text_ltb t u ≡ true → text_ltb s u ≡ true
unfolding text_ltb
text_ltb_trans String.[] String.[] u h k = absurd (cc)
text_ltb_trans String.[] (String.◌∷◌ d t) String.[] h k = absurd (cc)
text_ltb_trans String.[] (String.◌∷◌ d t) (String.◌∷◌ e u) h k = refl
text_ltb_trans (String.◌∷◌ c s) String.[] u h k = absurd (cc)
text_ltb_trans (String.◌∷◌ c s) (String.◌∷◌ d t) String.[] h k = absurd (cc)
text_ltb_trans (String.◌∷◌ c s) (String.◌∷◌ d t) (String.◌∷◌ e u) h k =
    step_trans (code c) (code d) (code e) (text_ltb s t) (text_ltb t u) (text_ltb s u)
      (text_ltb_trans s t u) h k

step_same :
    (m n : ℕ) (p q : Bool)
    → unit_ltb m n || (nat_eq m n && p) ≡ false
    → unit_ltb n m || (nat_eq n m && q) ≡ false
    → (m ≡ n) × (p ≡ false) × (q ≡ false)
step_same m n p q h k = ground (arith, h, k)

same_code : (c d : Char) → code c ≡ code d → c ≡ d
same_code c d e = codes_equal c d (ap (λ n. compare_ℕ n (code d)) e ∙ compare_self (code d))

-- Of two different strings one is before the other.
pub text_ltb_connected : (s t : String) → text_ltb s t ≡ false → text_ltb t s ≡ false → s ≡ t
unfolding text_ltb
text_ltb_connected String.[] String.[] h k = refl
text_ltb_connected String.[] (String.◌∷◌ d t) h k = absurd (cc)
text_ltb_connected (String.◌∷◌ c s) String.[] h k = absurd (cc)
text_ltb_connected (String.◌∷◌ c s) (String.◌∷◌ d t) h k =
    let (n, p, q) = step_same (code c) (code d) (text_ltb s t) (text_ltb t s) h k in
    ap (λ x. String.◌∷◌ x s) (same_code c d n) ∙ ap (String.◌∷◌ d) (text_ltb_connected s t p q)

step_irrefl : (n : ℕ) (p : Bool) → p ≡ false → unit_ltb n n || (nat_eq n n && p) ≡ false
step_irrefl n p h = ground (arith, h)

pub text_ltb_irrefl : (s : String) → text_ltb s s ≡ false
unfolding text_ltb
text_ltb_irrefl String.[] = refl
text_ltb_irrefl (String.◌∷◌ c s) = step_irrefl (code c) (text_ltb s s) (text_ltb_irrefl s)
