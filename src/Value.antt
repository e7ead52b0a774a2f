-- ===== src/Value.antt =====
-- Go's `any` as the program uses it: decoded JSON, and other dynamic types that it only passes on.
-- `F` is the type of float64. The maps and lists of a value are copies of `Map` and `List`.
use adk_go_pkg.Base.{ℕ, suc, Bool, Option, none, some, Bytes, str_eq, if◌then◌else◌}
use adk_go_pkg.Base.Int.{ℤ}

mutual
  pub data Value (F : Type 0) : Type 0 where
    null : Value F
    string : Bytes → Value F
    float64 : F → Value F
    int : ℤ → Value F
    bool : Bool → Value F
    map : Fields F → Value F
    list : Items F → Value F
    other : ℕ → Value F

  pub data Items (F : Type 0) : Type 0 where
    nil : Items F
    cons : Value F → Items F → Items F

  pub data Fields (F : Type 0) : Type 0 where
    end : Fields F
    field : Bytes → Value F → Fields F → Fields F

module _ {F : Type 0} where
  -- v, ok := m[k]
  unfoldable pub get : Bytes → Fields F → Option (Value F)
  get k end = none
  get k (field j v m) = if str_eq j k then some v else get k m

  unfoldable pub count_fields : Fields F → ℕ
  count_fields end = 0
  count_fields (field _ _ m) = suc (count_fields m)

  unfoldable pub count_items : Items F → ℕ
  count_items nil = 0
  count_items (cons _ xs) = suc (count_items xs)
