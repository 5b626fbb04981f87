-- ===== src/Vector/Cells.antt =====
-- src/vector.c: what `memmove` and the loop that doubles the size do.
use native.Mathlib.Nat.{pow-suc}
use snapcastc.Base.{
  ℕ, zero, suc, ◌+◌, ◌*◌, ◌%◌, ◌^◌, ◌<◌, ◌≤◌, ◌≡◌, refl, ap, List, [], ◌∷◌, ◌++◌, ltb, set, take,
  drop, arith, length, take-append, length-append, length-take, length-drop, delete_at, Bool-cases,
  inl, inr,
}
use snapcastc.Vector.{memmove, double_until}

-- The list with an element put in at an index.
abbrev pub insert_at {ℓ} : {A : Type ℓ} → List A → ℕ → A → List A
insert_at xs zero x = x ∷ xs
insert_at [] (suc i) x = x ∷ []
insert_at (y ∷ ys) (suc i) x = y ∷ insert_at ys i x

module _ {ℓ} {A : Type ℓ} where
  -- The cells from `pos` on move up, and the free one is written.
  pub insert_cells :
      (xs : List A) (x : A) (pos n l : ℕ)
      → n + pos ≡ l
      → l < length xs
      → take (suc l) (set (memmove xs (suc pos) pos n) pos x) ≡ insert_at (take l xs) pos x
  unfolding memmove
  insert_cells [] x pos n l e h = absurd (omega arith)
  insert_cells (y ∷ ys) x zero n l e h =
      let n_eq : n ≡ l = omega arith in
      rw n_eq (
        ap (◌∷◌ x)
          (take-append (take l (y ∷ ys)) (drop l ys) l (omega (arith, length-take l (y ∷ ys)))))
  insert_cells (y ∷ ys) x (suc pos) n zero e h = absurd (omega arith)
  insert_cells (y ∷ ys) x (suc pos) n (suc l) e h =
      ap (◌∷◌ y) (insert_cells ys x pos n l (omega arith) (omega arith))

  pub delete_cells :
      (xs : List A) (pos n l : ℕ)
      → n + pos ≡ l
      → l < length xs
      → take l (memmove xs pos (suc pos) n) ≡ delete_at (take (suc l) xs) pos
  unfolding memmove
  delete_cells [] pos n l e h = absurd (omega arith)
  delete_cells (y ∷ ys) zero n l e h =
      let n_eq : n ≡ l = omega arith in
      rw n_eq (take-append (take l ys) (drop l (y ∷ ys)) l (omega (arith, length-take l ys)))
  delete_cells (y ∷ ys) (suc pos) n zero e h = absurd (omega arith)
  delete_cells (y ∷ ys) (suc pos) n (suc l) e h =
      ap (◌∷◌ y) (delete_cells ys pos n l (omega arith) (omega arith))

  pub length-memmove :
      (xs : List A) (dst src n : ℕ)
      → dst + n ≤ length xs
      → src + n ≤ length xs
      → length (memmove xs dst src n) ≡ length xs
  unfolding memmove
  length-memmove xs dst src n h k = omega (
    arith,
    length-append (take dst xs) (take n (drop src xs) ++ drop n (drop dst xs)),
    length-append (take n (drop src xs)) (drop n (drop dst xs)),
    length-take dst xs,
    length-take n (drop src xs),
    length-drop src xs,
    length-drop n (drop dst xs),
    length-drop dst xs,
  )

  pub take_prefix : (xs ys : List A) (n : ℕ) → n ≤ length xs → take n (xs ++ ys) ≡ take n xs
  take_prefix xs ys zero h = refl
  take_prefix [] ys (suc n) h = absurd (omega arith)
  take_prefix (x ∷ xs) ys (suc n) h = ap (◌∷◌ x) (take_prefix xs ys n (omega arith))

-- The size is the least allocation doubled some times.
abbrev pub IsDoubled : ℕ → Type 0
IsDoubled a = (k : ℕ) × (a ≡ 4 * 2 ^ k)

IsDoubled-double : (a : ℕ) → IsDoubled a → IsDoubled (a * 2)
IsDoubled-double a (k, e) = (suc k, omega (arith, e, pow-suc 2 k))

-- The loop ends at a size that is enough and doubled, where no doubling wraps.
pub double_until_lem :
    (fuel alloc n : ℕ)
    → n ≤ 2 ^ 63
    → 0 < alloc
    → n ≤ fuel + alloc
    → IsDoubled alloc
    → (n ≤ double_until fuel alloc n)
      × (alloc ≤ double_until fuel alloc n)
      × IsDoubled (double_until fuel alloc n)
unfolding double_until
double_until_lem zero alloc n b p f d = (omega arith, omega arith, d)
double_until_lem (suc fuel) alloc n b p f d = elim (Bool-cases (ltb alloc n)) [
  | inl less ↦
      let small : alloc < n = ground arith in
      let no_wrap : alloc * 2 % 18446744073709551616 ≡ alloc * 2 = omega arith in
      let ih =
        double_until_lem fuel (alloc * 2) n b (omega arith) (omega arith)
          (IsDoubled-double alloc d) in
      rw (less, no_wrap) (ih.0, omega (arith, ih.1), ih.2)
  | inr enough ↦ rw enough (ground arith, omega arith, d)
]
