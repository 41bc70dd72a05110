-- ===== src/Base/Text.antt =====
-- Byte strings: `std::string` and `memcmp` over lists of byte values.
use Prim.Native.Char.{code}
use Prim.Native.Nat.{ℕ}
use Prim.Native.String.{String}
use mathlib.Core.Bool.{Bool, true, false, ◌&&◌}
use mathlib.Core.List.{List, [], ◌∷◌}
use mathlib.Core.Logic.{◌↔◌}
use mathlib.Core.Path.{◌≡◌, refl}
use native.Mathlib.Omega.{arith}
use guthi_core.Base.Checks.{◌==◌, ltb, if◌then◌else◌}

abbrev pub Bytes : Type 0
Bytes = List ℕ

-- The code points of a literal: its bytes, if it is ASCII.
abbrev pub codes : String → Bytes
codes String.[] = []
codes (String.◌∷◌ c s) = code c ∷ codes s

-- The bytes of a string in front of its first 0, as `c_str` and `strlen` see it.
abbrev pub c_string : Bytes → Bytes
c_string [] = []
c_string (b ∷ bs) = if b == 0 then [] else b ∷ c_string bs

-- `operator==` of strings; of two arrays of one length, `!memcmp`.
unfoldable pub equal : Bytes → Bytes → Bool
equal [] [] = true
equal [] (b ∷ bs) = false
equal (a ∷ rest) [] = false
equal (a ∷ rest) (b ∷ bs) = if a == b then equal rest bs else false

pub equal_iff : (s t : Bytes) → (equal s t ≡ true) ↔ (s ≡ t)
unfolding equal
equal_iff [] [] = (λ e. refl, λ e. refl)
equal_iff [] (b ∷ bs) = ground arith
equal_iff (a ∷ rest) [] = ground arith
equal_iff (a ∷ rest) (b ∷ bs) = ground (arith, equal_iff rest bs)

pub equal_refl : (a : Bytes) → equal a a ≡ true
equal_refl a = (equal_iff a a).1 refl

-- `operator<` of strings, the order of a `std::multimap` over them.
unfoldable pub less : Bytes → Bytes → Bool
less [] [] = false
less [] (y ∷ ys) = true
less (x ∷ xs) [] = false
less (x ∷ xs) (y ∷ ys) = if ltb x y then true else (x == y && less xs ys)

pub less_irrefl : (a : Bytes) → less a a ≡ false
unfolding less
less_irrefl [] = refl
less_irrefl (x ∷ a) = ground (arith, less_irrefl a)

pub less_trans : (a b c : Bytes) → less a b ≡ true → less b c ≡ true → less a c ≡ true
unfolding less
less_trans (x ∷ a) (y ∷ b) (z ∷ c) p q = ground (arith, less_trans a b c)
less_trans _ _ _ p q = ground arith

-- The order is total, so two strings that neither precedes are equal.
pub equal_of_not_less : (a b : Bytes) → less a b ≡ false → less b a ≡ false → a ≡ b
unfolding less
equal_of_not_less (x ∷ a) (y ∷ b) p q = ground (arith, equal_of_not_less a b)
equal_of_not_less _ _ p q = ground arith

pub not_less_trans : (a b c : Bytes) → less a b ≡ false → less b c ≡ false → less a c ≡ false
unfolding less
not_less_trans (x ∷ a) (y ∷ b) (z ∷ c) p q = ground (arith, not_less_trans a b c)
not_less_trans _ _ _ p q = ground arith

pub less_asymm : (a b : Bytes) → less a b ≡ true → less b a ≡ false
unfolding less
less_asymm (x ∷ a) (y ∷ b) p = ground (arith, less_asymm a b)
less_asymm _ _ p = ground arith
