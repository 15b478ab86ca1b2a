-- ===== src/Value/Merge.antt =====
-- Reading a merged dictionary.
use atlas_alpha.Prelude.{◌≡◌, refl, String, none, some, arith, ◌==◌, eq_iff, if◌then◌else◌}
use atlas_alpha.Value.{Value, Fields, field, end, get, set, merge}

-- No key stands twice, as in every `dict`.
abbrev pub HasUniqueKeys : Fields → Type 0
HasUniqueKeys end = Unit
HasUniqueKeys (field k v d) = (get k d ≡ none) × HasUniqueKeys d

get-set :
    (k j : String) (v : Value) (d : Fields)
    → get j (set k v d) ≡ (if k == j then some v else get j d)
unfolding get set
get-set k j v end = refl
get-set k j v (field i w d) = ground (arith, eq_iff k j, eq_iff i k, eq_iff i j, get-set k j v d)

-- A key that the second dictionary lacks is read from the first.
pub get-merge_left : (k : String) (a b : Fields) → get k b ≡ none → get k (merge a b) ≡ get k a
unfolding merge get
get-merge_left k a end h = refl
get-merge_left k a (field j v b) h =
    ground (arith, eq_iff j k, get-set j k v a, get-merge_left k (set j v a) b)

-- A key of the second dictionary is read from it.
pub get-merge_right :
    (k : String) (v : Value) (a b : Fields)
    → HasUniqueKeys b
    → get k b ≡ some v
    → get k (merge a b) ≡ some v
unfolding merge get
get-merge_right k v a end u h = cc
get-merge_right k v a (field j w b) u h = ground (
  arith,
  eq_iff j k,
  get-set j k w a,
  get-merge_left k (set j w a) b,
  get-merge_right k v (set j w a) b u.1,
)
