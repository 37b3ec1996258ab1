-- ===== src/Common/Text.antt =====
-- Byte strings: `char *` with a length, or up to its NUL, as the list of its bytes, and what the
-- code calls of <string.h> and <strings.h>.
use Prim.Native.Nat.{ℕ, ◌+◌}
use Prim.Native.Char.{code}
use Prim.Native.String.{String}
use mathlib.Core.Path.{◌≡◌, refl}
use mathlib.Core.Logic.{◌↔◌}
use mathlib.Core.Bool.{Bool, true, false, ◌&&◌, ◌||◌}
use mathlib.Core.List.{List, [], ◌∷◌}
use native.Mathlib.Omega.{arith}
use gargantua.Common.Tests.{leb, ◌==◌, if◌then◌else◌}

abbrev pub Bytes : Type 0
Bytes = List ℕ

-- The bytes of an ASCII literal.
abbrev pub codes : String → Bytes
codes String.[] = []
codes (String.◌∷◌ c s) = code c ∷ codes s

abbrev pub within : ℕ → ℕ → ℕ → Bool
within lo hi c = leb lo c && leb c hi

-- `strchr(set, c) != NULL` for a byte of the text, and membership in a set of bytes.
unfoldable pub contains : Bytes → ℕ → Bool
contains [] c = false
contains (x ∷ xs) c = x == c || contains xs c

-- `strcmp(a, b) == 0`, and `memcmp` over the whole of two strings of one length.
unfoldable pub str_eq : Bytes → Bytes → Bool
str_eq [] [] = true
str_eq (x ∷ xs) (y ∷ ys) = x == y && str_eq xs ys
str_eq _ _ = false

-- `tolower` of the C locale.
unfoldable pub to_lower : ℕ → ℕ
to_lower c = if within b'A' b'Z' c then c + 32 else c

-- `strcasecmp(a, b) == 0`.
unfoldable pub strcase_eq : Bytes → Bytes → Bool
unfolding to_lower
strcase_eq [] [] = true
strcase_eq (x ∷ xs) (y ∷ ys) = to_lower x == to_lower y && strcase_eq xs ys
strcase_eq _ _ = false

-- `strncasecmp(text, prefix, strlen(prefix)) == 0`.
unfoldable pub strcase_starts : Bytes → Bytes → Bool
unfolding to_lower
strcase_starts [] text = true
strcase_starts (p ∷ ps) [] = false
strcase_starts (p ∷ ps) (c ∷ cs) = to_lower p == to_lower c && strcase_starts ps cs

pub str_eq_iff : (a b : Bytes) → (str_eq a b ≡ true) ↔ (a ≡ b)
unfolding str_eq
str_eq_iff (x ∷ a) (y ∷ b) = ground (arith, str_eq_iff a b)
str_eq_iff _ _ = ground arith

pub str_eq_refl : (a : Bytes) → str_eq a a ≡ true
unfolding str_eq
str_eq_refl [] = refl
str_eq_refl (x ∷ a) = ground (arith, str_eq_refl a)

-- Two texts that one text matches match each other.
pub strcase_eq_common :
    (a b c : Bytes) → strcase_eq a b ≡ true → strcase_eq a c ≡ true → strcase_eq b c ≡ true
unfolding strcase_eq
strcase_eq_common [] [] [] h k = refl
strcase_eq_common (x ∷ a) (y ∷ b) (z ∷ c) h k = ground (arith, strcase_eq_common a b c)
strcase_eq_common _ _ _ h k = ground arith

pub strcase_eq_sym : (a b : Bytes) → strcase_eq a b ≡ strcase_eq b a
unfolding strcase_eq
strcase_eq_sym [] [] = refl
strcase_eq_sym [] (y ∷ b) = refl
strcase_eq_sym (x ∷ a) [] = refl
strcase_eq_sym (x ∷ a) (y ∷ b) = ground (arith, strcase_eq_sym a b)

-- Texts that match each other match the same texts.
pub strcase_eq_congr : (a b c : Bytes) → strcase_eq a b ≡ true → strcase_eq a c ≡ strcase_eq b c
strcase_eq_congr a b c e =
    ground (arith, strcase_eq_common a b c e, strcase_eq_common b a c, strcase_eq_sym a b)
