-- ===== src/Vector/Laws.antt =====
-- src/vector.c: vectors as lists.
use snapcastc.Base.{
  set, ℕ, suc, ◌+◌, ◌*◌, ◌-◌, ◌/◌, ◌%◌, ◌^◌, ◌==◌, ◌<◌, ◌≤◌, ◌≡◌, refl, ap, List, [], ◌∷◌, ◌++◌,
  take, replicate, arith, length, length-append, length-set, length-take, length-replicate,
  delete_at, Bool-cases, inl, inr, ◌∙◌, ◌⊎◌, sym,
}
use snapcastc.Vector.{
  Vector, memmove, realloc, vector_resize, vector_insert, vector_add, vector_delete, vector_init,
}
use snapcastc.Vector.Cells.{
  insert_at, insert_cells, delete_cells, length-memmove, take_prefix, IsDoubled, double_until_lem,
}

module _ {A : Type 0} (junk : A) where
  -- The list that the vector stands for.
  abbrev pub contents : Vector A → List A
  contents v = take v.length v.cells

  pub record IsValid (v : Vector A) : Type 0 where
    pub size : length v.cells ≡ v.allocated
    pub fits : v.length ≤ v.allocated
    pub doubled : (v.allocated ≡ 0) ⊎ IsDoubled v.allocated

  -- The vector after a change of length: the old cells are still there.
  record Resized (v : Vector A) (n : ℕ) (w : Vector A) : Type 0 where
    valid : IsValid w
    long : w.length ≡ n
    kept : (k : ℕ) → k ≤ v.allocated → take k w.cells ≡ take k v.cells
    bigger : v.allocated ≤ w.allocated

  realloc_lem :
      (v : Vector A) (n alloc : ℕ)
      → IsValid v
      → v.allocated ≤ alloc
      → n ≤ alloc
      → (alloc ≡ 0) ⊎ IsDoubled alloc
      → Resized v n (realloc junk v n alloc)
  unfolding realloc
  realloc_lem v n alloc ok h f d = elim (Bool-cases (alloc == v.allocated)) [
    | inl same ↦
        let e : alloc ≡ v.allocated = ground arith in
        rw same (record {
          valid = record { size = ok.size; fits = omega arith; doubled = ok.doubled };
          long = refl;
          kept = λ k p. refl;
          bigger = omega arith;
        })
    | inr more ↦ rw more (record {
      valid = record {
        size = omega (
          arith,
          length-append v.cells (replicate (alloc - v.allocated) junk),
          length-replicate (alloc - v.allocated) junk,
          ok.size,
        );
        fits = f;
        doubled = d;
      };
      long = refl;
      kept = λ k p. take_prefix v.cells _ k (omega (arith, ok.size));
      bigger = h;
    })
  ]

  resize_lem :
      (v : Vector A) (n : ℕ) → IsValid v → n ≤ 2 ^ 62 → Resized v n (vector_resize junk v n)
  unfolding vector_resize
  resize_lem v n ok small = elim (Bool-cases (v.allocated == 0)) [
    | inl new ↦
        let wanted = n * 3 % 18446744073709551616 / 2 in
        let (enough, least, doubled) =
          double_until_lem wanted 4 wanted (omega arith) (omega arith) (omega arith) (0, refl) in
        rw new (realloc_lem v n _ ok (ground arith) (omega arith) (inr doubled))
    | inr old ↦
        let used : 0 < v.allocated = ground arith in
        let power : IsDoubled v.allocated = elim ok.doubled [
          | inl e ↦ absurd (omega arith)
          | inr d ↦ d
        ] in
        let (enough, least, doubled) =
          double_until_lem n v.allocated n (omega arith) used (omega arith) power in
        rw old (realloc_lem v n _ ok least enough (inr doubled))
  ]

  pub vector_init-IsValid : IsValid (vector_init junk)
  unfolding vector_init
  vector_init-IsValid = record { size = refl; fits = omega arith; doubled = inl refl }

  -- `VECTOR_INSERT` into a valid vector of fewer than `2 ^ 62` elements, at an index up to its
  -- length, puts the element in there, and keeps the vector valid: its cells are as many as it
  -- says, a power of two times the least allocation.
  pub vector_insert_correct :
      (v : Vector A) (x : A) (pos : ℕ)
      → IsValid v
      → pos ≤ v.length
      → v.length < 2 ^ 62
      → (contents (vector_insert junk v x pos) ≡ insert_at (contents v) pos x)
        × IsValid (vector_insert junk v x pos)
        × ((vector_insert junk v x pos).length ≡ v.length + 1)
  unfolding vector_insert
  vector_insert_correct v x pos ok inside small =
      let g = vector_resize junk v (v.length + 1) in
      let r = resize_lem v (v.length + 1) ok (omega arith) in
      let n = g.length - pos - 1 in
      let room : v.length < length g.cells = omega (arith, r.valid.size, r.valid.fits, r.long) in
      let n_eq : n + pos ≡ v.length = omega (arith, r.long) in
      let long : g.length ≡ suc v.length = omega (arith, r.long) in
      let moved = insert_cells g.cells x pos n v.length n_eq room in
      let same = length-memmove g.cells (suc pos) pos n (omega arith) (omega arith) in
      (
        ap (λ l. take l (set (memmove g.cells (suc pos) pos n) pos x)) long
            ∙ (moved ∙ ap (λ l. insert_at l pos x) (r.kept v.length ok.fits)),
        record {
          size = length-set (memmove g.cells (suc pos) pos n) pos x ∙ same ∙ r.valid.size;
          fits = r.valid.fits;
          doubled = r.valid.doubled;
        },
        r.long,
      )

  insert_at_end : (xs : List A) (x : A) → insert_at xs (length xs) x ≡ xs ++ x ∷ []
  insert_at_end [] x = refl
  insert_at_end (y ∷ xs) x = ap (◌∷◌ y) (insert_at_end xs x)

  -- `VECTOR_ADD` puts the element at the end.
  pub vector_add_correct :
      (v : Vector A) (x : A)
      → IsValid v
      → v.length < 2 ^ 62
      → (contents (vector_add junk v x) ≡ contents v ++ x ∷ []) × IsValid (vector_add junk v x)
  unfolding vector_add
  vector_add_correct v x ok small =
      let i = vector_insert_correct v x v.length ok (omega arith) small in
      let long : length (contents v) ≡ v.length =
        omega (arith, length-take v.length v.cells, ok.size, ok.fits) in
      (i.0 ∙ (ap (λ k. insert_at (contents v) k x) (sym long) ∙ insert_at_end (contents v) x), i.1)

  -- `VECTOR_DELETE` from a valid vector of fewer than `2 ^ 62` elements, at an index within it,
  -- takes that element out and keeps the vector valid.
  pub vector_delete_correct :
      (v : Vector A) (pos : ℕ)
      → IsValid v
      → pos < v.length
      → v.length < 2 ^ 62
      → (contents (vector_delete junk v pos) ≡ delete_at (contents v) pos)
        × IsValid (vector_delete junk v pos)
        × ((vector_delete junk v pos).length ≡ v.length - 1)
  unfolding vector_delete
  vector_delete_correct v pos ok inside small =
      let n = v.length - pos - 1 in
      let cells = memmove v.cells pos (suc pos) n in
      let same =
        length-memmove v.cells pos (suc pos) n (omega (arith, ok.size, ok.fits))
          (omega (arith, ok.size, ok.fits)) in
      let w = record v { cells = cells } in
      let ok' : IsValid w = record {
        size = same ∙ ok.size;
        fits = ok.fits;
        doubled = ok.doubled;
      } in
      let r = resize_lem w (v.length - 1) ok' (omega arith) in
      let long : v.length ≡ suc (v.length - 1) = omega arith in
      let moved =
        delete_cells v.cells pos n (v.length - 1) (omega arith) (omega (arith, ok.size, ok.fits)) in
      (
        rw r.long (r.kept (v.length - 1) (omega (arith, ok.fits)) ∙ moved)
            ∙ ap (λ k. delete_at (take k v.cells) pos) (sym long),
        r.valid,
        r.long,
      )
