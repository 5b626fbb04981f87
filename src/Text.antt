-- ===== src/Text.antt =====
-- Texts of the programming language: lists of bytes without the final zero, and what the source uses of string.h.
use snapcastc.Base.{ℕ, zero, suc, ◌==◌, Bool, true, false, ◌&&◌, List, [], ◌∷◌, ◌≡◌, refl, arith}
use Prim.Native.Char.{code}
use Prim.Native.String.{String}

abbrev pub Text : Type 0
Text = List ℕ

-- The bytes of a literal.
abbrev pub codes : String → Text
codes String.[] = []
codes (String.◌∷◌ c s) = code c ∷ codes s

-- `!strncmp(a, b, n)`: the texts agree in their first `n` bytes, the final zero included.
unfoldable pub same_prefix : Text → Text → ℕ → Bool
same_prefix a b zero = true
same_prefix [] [] (suc n) = true
same_prefix [] (y ∷ b) (suc n) = false
same_prefix (x ∷ a) [] (suc n) = false
same_prefix (x ∷ a) (y ∷ b) (suc n) = x == y && same_prefix a b n

-- `!strcmp(a, b)`
unfoldable pub same_text : Text → Text → Bool
same_text [] [] = true
same_text [] (y ∷ b) = false
same_text (x ∷ a) [] = false
same_text (x ∷ a) (y ∷ b) = x == y && same_text a b

-- The text at the beginning of an array of bytes.
unfoldable pub c_string : List ℕ → Text
c_string [] = []
c_string (b ∷ bs) = let rest = c_string bs in elim (b == 0) [ true ↦ [] | false ↦ b ∷ rest ]

pub same_prefix_self : (a : Text) (n : ℕ) → same_prefix a a n ≡ true
unfolding same_prefix
same_prefix_self a zero = refl
same_prefix_self [] (suc n) = refl
same_prefix_self (x ∷ a) (suc n) = ground (arith, same_prefix_self a n)

pub same_text_eq : (a b : Text) → same_text a b ≡ true → a ≡ b
unfolding same_text
same_text_eq [] [] h = refl
same_text_eq [] (y ∷ b) h = cc
same_text_eq (x ∷ a) [] h = cc
same_text_eq (x ∷ a) (y ∷ b) h = ground (arith, same_text_eq a b)
