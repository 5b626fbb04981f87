-- ===== src/Examples/Vectors.antt =====
-- src/vector.h: an empty vector, and one of one element.
use snapcastc.Base.{ℕ, ◌+◌, ◌-◌, ◌≡◌, refl, arith, delete_at}
use snapcastc.Vector.{Vector, vector_init, vector_insert, vector_delete}
use snapcastc.Vector.Cells.{insert_at}
use snapcastc.Vector.Laws.{
  contents, IsValid, vector_init-IsValid, vector_insert_correct, vector_delete_correct,
}

abbrev empty : Vector ℕ
empty = vector_init 0

empty-length : empty.length ≡ 0
unfolding vector_init
empty-length = refl

abbrev single : Vector ℕ
single = vector_insert 0 empty 7 0

single_lem :
    (contents 0 single ≡ insert_at (contents 0 empty) 0 7)
    × IsValid 0 single
    × (single.length ≡ empty.length + 1)
single_lem =
    vector_insert_correct 0 empty 7 0 (vector_init-IsValid 0) (omega arith)
      (omega (arith, empty-length))

vector_insert_correct_example :
    (contents 0 (vector_insert 0 single 8 1) ≡ insert_at (contents 0 single) 1 8)
    × IsValid 0 (vector_insert 0 single 8 1)
    × ((vector_insert 0 single 8 1).length ≡ single.length + 1)
vector_insert_correct_example =
    vector_insert_correct 0 single 8 1 single_lem.1 (omega (arith, single_lem.2))
      (omega (arith, single_lem.2, empty-length))

vector_delete_correct_example :
    (contents 0 (vector_delete 0 single 0) ≡ delete_at (contents 0 single) 0)
    × IsValid 0 (vector_delete 0 single 0)
    × ((vector_delete 0 single 0).length ≡ single.length - 1)
vector_delete_correct_example =
    vector_delete_correct 0 single 0 single_lem.1 (omega (arith, single_lem.2))
      (omega (arith, single_lem.2, empty-length))
