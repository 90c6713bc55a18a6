-- ===== src/Json.antt =====
-- The values that the code reads from JSON documents and event rows, with the operations of
-- Python on them: `dict.get`, item assignment, truth, `==` and the `isinstance` tests.
-- A dict is a list of fields in insertion order; `json.loads` and item assignment keep one
-- field for each key, and `lookup` reads the first. A finite float is the dyadic number
-- `m / 2 ^ e` that it stands for.
pub mod Laws
pub mod Equality
use loop_engineer.Common.{
  ℕ, zero, suc, ◌+◌, ◌*◌, ◌^◌, String, Bool, true, false, ◌&&◌, ◌||◌, not, Option, none, some, List,
  [], ◌∷◌, ◌==◌, nat_eq, if◌then◌else◌,
}

-- `negsuc n` is -(n + 1).
pub data ℤ : Type 0 where
  pos : ℕ → ℤ
  negsuc : ℕ → ℤ

mutual
  pub data Value : Type 0 where
    null : Value
    bool : Bool → Value
    int : ℤ → Value
    float : ℤ → ℕ → Value
    infinity : Bool → Value
    nan : Value
    str : String → Value
    arr : Items → Value
    obj : Fields → Value

  pub data Items : Type 0 where
    nil : Items
    item : Value → Items → Items

  pub data Fields : Type 0 where
    end : Fields
    field : String → Value → Fields → Fields

abbrev pub nat : ℕ → Value
nat n = int (pos n)

-- `d[k]` where the key may be missing.
abbrev pub lookup : String → Fields → Option Value
lookup k end = none
lookup k (field j v f) = if k == j then some v else lookup k f

abbrev pub or_null : Option Value → Value
or_null none = null
or_null (some v) = v

-- `d.get(k)`
abbrev pub get : String → Fields → Value
get k f = or_null (lookup k f)

abbrev pub is_some {ℓ} : {A : Type ℓ} → Option A → Bool
is_some none = false
is_some (some a) = true

-- `k in d`
abbrev pub has_key : String → Fields → Bool
has_key k f = is_some (lookup k f)

-- `d[k] = v`, which keeps the place of a key that is there
abbrev pub assign : String → Value → Fields → Fields
assign k v end = field k v end
assign k v (field j w f) = if k == j then field j v f else field j w (assign k v f)

abbrev pub keys : Fields → List String
keys end = []
keys (field k v f) = k ∷ keys f

abbrev pub values : Fields → List Value
values end = []
values (field k v f) = v ∷ values f

abbrev pub elements : Items → List Value
elements nil = []
elements (item v vs) = v ∷ elements vs

abbrev pub fields_empty : Fields → Bool
fields_empty end = true
fields_empty (field k v f) = false

abbrev pub items_empty : Items → Bool
items_empty nil = true
items_empty (item v vs) = false

abbrev pub is_zero : ℤ → Bool
is_zero (pos n) = nat_eq n 0
is_zero (negsuc n) = false

-- `bool(v)`
abbrev pub truthy : Value → Bool
truthy null = false
truthy (bool b) = b
truthy (int n) = not (is_zero n)
truthy (float m e) = not (is_zero m)
truthy (infinity s) = true
truthy nan = true
truthy (str s) = not (s == "")
truthy (arr vs) = not (items_empty vs)
truthy (obj f) = not (fields_empty f)

-- `v is None`
abbrev pub is_null : Value → Bool
is_null null = true
is_null _ = false

-- `v is True`: the singleton, not a truthy substitute
abbrev pub is_true : Value → Bool
is_true (bool b) = b
is_true _ = false

abbrev pub is_str : Value → Bool
is_str (str s) = true
is_str _ = false

abbrev pub is_bool : Value → Bool
is_bool (bool b) = true
is_bool _ = false

abbrev pub is_list : Value → Bool
is_list (arr vs) = true
is_list _ = false

abbrev pub is_dict : Value → Bool
is_dict (obj f) = true
is_dict _ = false

-- `isinstance(v, str) and v`
abbrev pub is_nonempty_str : Value → Bool
is_nonempty_str (str s) = not (s == "")
is_nonempty_str _ = false

-- `isinstance(v, int) and not isinstance(v, bool) and v >= 0`
abbrev pub is_nat : Value → Bool
is_nat (int (pos n)) = true
is_nat _ = false

-- `v in ("a", …)` for a tuple of strings, to which no other kind of value is equal
abbrev pub is_one_of : List String → Value → Bool
is_one_of [] v = false
is_one_of (x ∷ xs) (str s) = s == x || is_one_of xs (str s)
is_one_of (x ∷ xs) v = false
