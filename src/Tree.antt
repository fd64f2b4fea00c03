-- ===== src/Tree.antt =====
-- The plain data that configurations are dumped to and requests are read from (`model_dump`, JSON,
-- YAML): Python's None, bool, int, str, list and dict. A dict keeps its order; numbers are natural,
-- as the configuration has no others.
pub mod Lookup
use joulenap.Prelude.{
  ℕ, zero, suc, Bool, true, false, not, ◌&&◌, ◌||◌, Text, codes, text_eq, is_empty, ◌==◌,
  if◌then◌else◌,
}

mutual
  pub data Value : Type 0 where
    null : Value
    boolean : Bool → Value
    number : ℕ → Value
    text : Text → Value
    array : Items → Value
    object : Fields → Value

  pub data Items : Type 0 where
    nil : Items
    cons : Value → Items → Items

  pub data Fields : Type 0 where
    end : Fields
    field : Text → Value → Fields → Fields

-- `if value`
abbrev pub truthy : Value → Bool
truthy null = false
truthy (boolean b) = b
truthy (number n) = not (n == 0)
truthy (text t) = not (is_empty t)
truthy (array nil) = false
truthy (array (cons x xs)) = true
truthy (object end) = false
truthy (object (field k v fs)) = true

unfoldable pub has_field : Text → Fields → Bool
has_field k end = false
has_field k (field j v fs) = text_eq j k || has_field k fs

-- d.get(k)
unfoldable pub find_field : Text → Fields → Value
find_field k end = null
find_field k (field j v fs) = let rest = find_field k fs in if text_eq j k then v else rest

-- `current.get(key) if isinstance(current, dict) else None`
abbrev pub get : Text → Value → Value
get k (object fs) = find_field k fs
get k _ = null

-- d[k] = v
unfoldable pub set_field : Text → Value → Fields → Fields
set_field k v end = field k v end
set_field k v (field j w fs) =
    let rest = set_field k v fs in if text_eq j k then field j v fs else field j w rest

-- xs[i], or None past the end
unfoldable pub nth : ℕ → Items → Value
nth i nil = null
nth zero (cons x xs) = x
nth (suc i) (cons x xs) = nth i xs

-- `==`; dicts are compared in their order.
unfoldable mutual
  pub value_eq : Value → Value → Bool
  value_eq null null = true
  value_eq (boolean a) (boolean b) = if a then b else not b
  value_eq (number m) (number n) = m == n
  value_eq (text s) (text t) = text_eq s t
  value_eq (array xs) (array ys) = items_eq xs ys
  value_eq (object fs) (object gs) = fields_eq fs gs
  value_eq _ _ = false

  items_eq : Items → Items → Bool
  items_eq nil nil = true
  items_eq (cons x xs) (cons y ys) = value_eq x y && items_eq xs ys
  items_eq _ _ = false

  fields_eq : Fields → Fields → Bool
  fields_eq end end = true
  fields_eq (field j v fs) (field k w gs) = text_eq j k && value_eq v w && fields_eq fs gs
  fields_eq _ _ = false

-- No key is there twice, as in any dict.
unfoldable pub unique_keys : Fields → Bool
unique_keys end = true
unique_keys (field k v fs) = not (has_field k fs) && unique_keys fs
