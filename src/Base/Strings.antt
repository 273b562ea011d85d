-- ===== src/Base/Strings.antt =====
-- A Go string or byte slice: the list of its bytes. Comparison, and membership in a slice.
use Prim.Native.Char.{code}
use Prim.Native.String.{String}
use Prim.Native.Nat.{ℕ}
use mathlib.Core.Path.{◌≡◌, refl}
use mathlib.Core.Logic.{◌↔◌}
use mathlib.Core.Bool.{Bool, true, false, ◌&&◌, ◌||◌}
use mathlib.Core.List.{List, [], ◌∷◌}
use native.Mathlib.Omega.{arith}
use mpcium.Base.Lists.{select}
use mathlib.Core.List.{◌++◌}
use mpcium.Base.Tests.{◌==◌}

abbrev pub Str : Type 0
Str = List ℕ

-- The bytes of an ASCII literal.
abbrev pub codes : String → Str
codes String.[] = []
codes (String.◌∷◌ c s) = code c ∷ codes s

-- `s == t` on strings
unfoldable pub str_eq : Str → Str → Bool
str_eq [] [] = true
str_eq [] (b ∷ t) = false
str_eq (a ∷ s) [] = false
str_eq (a ∷ s) (b ∷ t) = (a == b) && str_eq s t

pub str_eq_iff : (s t : Str) → (str_eq s t ≡ true) ↔ (s ≡ t)
unfolding str_eq
str_eq_iff [] [] = (λ _. refl, λ _. refl)
str_eq_iff [] (b ∷ t) = (λ h. cc, λ h. cc)
str_eq_iff (a ∷ s) [] = (λ h. cc, λ h. cc)
str_eq_iff (a ∷ s) (b ∷ t) =
    (λ h. ground (arith, str_eq_iff s t), λ h. ground (arith, str_eq_iff s t))

pub str_eq_refl : (s : Str) → str_eq s s ≡ true
str_eq_refl s = (str_eq_iff s s).1 refl

-- `slices.Contains`
unfoldable pub contains : List Str → Str → Bool
contains [] x = false
contains (y ∷ ys) x = str_eq y x || contains ys x

pub contains-select :
    (q : Str → Bool) (p : Str) (ks : List Str) → contains (select q ks) p ≡ (q p && contains ks p)
unfolding contains
contains-select q p [] = ground arith
contains-select q p (k ∷ ks) = ground (arith, contains-select q p ks, str_eq_iff k p)

pub contains-append_self : (xs : List Str) (x : Str) → contains (xs ++ x ∷ []) x ≡ true
unfolding contains
contains-append_self [] x = ground (arith, str_eq_iff x x)
contains-append_self (y ∷ ys) x = ground (arith, contains-append_self ys x)
