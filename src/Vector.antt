-- ===== src/Vector.antt =====
-- src/vector.c and vector.h: arrays that grow. `data` holds the allocated cells, those behind the
-- length included; a cell that no write has reached holds `junk`. Sizes are of type `size_t`.
pub mod Cells
pub mod Laws
use snapcastc.Base.{
  ℕ, zero, suc, ◌+◌, ◌*◌, ◌-◌, ◌/◌, ◌%◌, ◌==◌, List, [], ◌∷◌, ◌++◌, ltb, if◌then◌else◌, set, take,
  drop, replicate, u64_mod, map,
}

pub record Vector (A : Type 0) : Type 0 where
  pub allocated : ℕ
  pub length : ℕ
  pub cells : List A

abbrev pub min_vector_alloc : ℕ
min_vector_alloc = 4

-- `while (alloc < n) alloc <<= 1;` with fuel. From 4 upwards n rounds are enough.
pub double_until : ℕ → ℕ → ℕ → ℕ
double_until zero alloc n = alloc
double_until (suc fuel) alloc n =
    let rest = double_until fuel (alloc * 2 % u64_mod) n in if ltb alloc n then rest else alloc

-- `memmove`: `n` cells from `src` are copied to `dst`.
pub memmove {ℓ} : {A : Type ℓ} → List A → ℕ → ℕ → ℕ → List A
memmove cells dst src n = take dst cells ++ (take n (drop src cells) ++ drop n (drop dst cells))

module _ {A : Type 0} (junk : A) where
  unfoldable pub vector_init : Vector A
  vector_init = record { allocated = 0; length = 0; cells = [] }

  -- `VECTOR_FREE`: the cells are given back, and the allocated size is not reset.
  pub vector_free : Vector A → Vector A
  vector_free v = record v { length = 0; cells = [] }

  -- The new cells of `realloc` hold anything.
  pub realloc : Vector A → ℕ → ℕ → Vector A
  realloc v n alloc = if alloc == v.allocated then record v { length = n } else record {
    allocated = alloc;
    length = n;
    cells = v.cells ++ replicate (alloc - v.allocated) junk;
  }

  pub vector_resize : Vector A → ℕ → Vector A
  unfolding double_until realloc
  vector_resize v n =
      if v.allocated == 0
      then (let wanted = n * 3 % u64_mod / 2 in
          realloc v n (double_until wanted min_vector_alloc wanted))
      else realloc v n (double_until n v.allocated n)

  pub vector_insert : Vector A → A → ℕ → Vector A
  unfolding vector_resize memmove
  vector_insert v x pos =
      let grown = vector_resize v (v.length + 1) in
      record grown {
        cells = set (memmove grown.cells (suc pos) pos (grown.length - pos - 1)) pos x;
      }

  pub vector_add : Vector A → A → Vector A
  unfolding vector_insert
  vector_add v x = vector_insert v x v.length

  pub vector_delete : Vector A → ℕ → Vector A
  unfolding vector_resize memmove
  vector_delete v pos =
      vector_resize (record v { cells = memmove v.cells pos (suc pos) (v.length - pos - 1) })
        (v.length - 1)
