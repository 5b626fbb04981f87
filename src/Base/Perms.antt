-- ===== src/Base/Perms.antt =====
-- Rearrangements of a list by writes at an index.
use mathlib.Core.Logic.{∥∥₁_elim}
use native.Mathlib.Nat.{ℕ_set}
use mathlib.Core.List.{Permᴰ, perm_middle, append-nil}
use mathlib.Core.List.Perm
use snapcastc.Base.{
  ℕ, zero, suc, ◌<◌, ◌≡◌, refl, ap, ◌∙◌, List, [], ◌∷◌, ◌++◌, Perm, arith, length, get_or, set,
  take,
}

module _ {ℓ} {A : Type ℓ} where
  same_length : {xs ys : List A} → Permᴰ xs ys → length xs ≡ length ys
  same_length Permᴰ.nil = refl
  same_length (Permᴰ.cons _ p) = ap suc (same_length p)
  same_length (Permᴰ.swap _ _) = refl
  same_length (Permᴰ.trans p q) = same_length p ∙ same_length q

  pub length-perm : {xs ys : List A} → Perm xs ys → length xs ≡ length ys
  length-perm p = ∥∥₁_elim p (ℕ_set _ _) same_length

  pub append_last-perm : (xs : List A) (x : A) → Perm (xs ++ x ∷ []) (x ∷ xs)
  append_last-perm xs x = rw (append-nil xs) at (perm_middle {a = x} xs [])

  -- A write exchanges the old element for the new one.
  pub set-perm :
      (xs : List A) (i : ℕ) (v d : A) → i < length xs → Perm (get_or xs i d ∷ set xs i v) (v ∷ xs)
  set-perm [] i v d h = absurd (omega arith)
  set-perm (x ∷ xs) zero v d h = Perm.swap v x xs
  set-perm (x ∷ xs) (suc i) v d h =
      let deeper = Perm.cons x (set-perm xs i v d (omega arith)) in
      Perm.trans (Perm.swap x _ _) (Perm.trans deeper (Perm.swap v x xs))

  -- The list of all but the last element, and the last.
  pub take-append_last :
      (n : ℕ) (xs : List A) (d : A) → length xs ≡ suc n → take n xs ++ get_or xs n d ∷ [] ≡ xs
  take-append_last zero (x ∷ []) d h = refl
  take-append_last zero [] d h = absurd (omega arith)
  take-append_last zero (x ∷ y ∷ xs) d h = absurd (omega arith)
  take-append_last (suc n) [] d h = absurd (omega arith)
  take-append_last (suc n) (x ∷ xs) d h = ap (◌∷◌ x) (take-append_last n xs d (omega arith))

  pub take_last-perm :
      (n : ℕ) (xs : List A) (d : A) → length xs ≡ suc n → Perm (get_or xs n d ∷ take n xs) xs
  take_last-perm n xs d h =
      rw (take-append_last n xs d h) at (Perm.symm (append_last-perm (take n xs) (get_or xs n d)))
