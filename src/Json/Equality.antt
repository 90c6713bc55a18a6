-- ===== src/Json/Equality.antt =====
-- Python's `==` on JSON values: numbers of all kinds by value, lists in order, dicts by key.
use Prim.Native.Nat.{◌^◌}
use loop_engineer.Common.{
  suc, not, ap, nat_eq_lem, nat_eq_self, eq_refl, ℕ, ◌*◌, ◌≡◌, refl, Bool, true, false, ◌&&◌,
  Option, none, some, arith, ◌==◌, eq_iff, nat_eq, String, if◌then◌else◌,
}
use loop_engineer.Json.{
  ℤ, pos, negsuc, Value, Items, Fields, null, bool, int, float, infinity, nan, str, arr, obj, nil,
  item, end, field, lookup, is_null, items_empty, keys, nat, is_nat,
}
use loop_engineer.Common.{length}

-- The dyadic number of a bool, an int or a finite float.
abbrev dyadic : Value → Option (ℤ × ℕ)
dyadic (bool b) = some (pos (if b then 1 else 0), 0)
dyadic (int n) = some (n, 0)
dyadic (float m e) = some (m, e)
dyadic _ = none

abbrev scaled_eq : ℤ → ℕ → ℤ → ℕ → Bool
scaled_eq (pos a) d (pos b) e = nat_eq (a * 2 ^ e) (b * 2 ^ d)
scaled_eq (negsuc a) d (negsuc b) e = nat_eq (suc a * 2 ^ e) (suc b * 2 ^ d)
scaled_eq _ d _ e = false

abbrev number_eq : Value → Value → Bool
number_eq v w = elim (dyadic v) [
  | none ↦ false
  | some (m, d) ↦ elim (dyadic w) [ none ↦ false | some (n, e) ↦ scaled_eq m d n e ]
]

abbrev infinity_eq : Bool → Value → Bool
infinity_eq s (infinity t) = if s then t else not t
infinity_eq s _ = false

abbrev text_eq : String → Value → Bool
text_eq s (str t) = s == t
text_eq s _ = false

unfoldable mutual
  pub py_eq : Value → Value → Bool
  py_eq null w = is_null w
  py_eq (bool b) w = number_eq (bool b) w
  py_eq (int n) w = number_eq (int n) w
  py_eq (float m e) w = number_eq (float m e) w
  py_eq (infinity s) w = infinity_eq s w
  py_eq nan w = false
  py_eq (str s) w = text_eq s w
  py_eq (arr xs) w = elim w [ arr ys ↦ items_eq xs ys | _ ↦ false ]
  py_eq (obj f) w = elim w [
    | obj g ↦ nat_eq (length (keys f)) (length (keys g)) && fields_eq f g
    | _ ↦ false
  ]

  pub items_eq : Items → Items → Bool
  items_eq nil ys = items_empty ys
  items_eq (item x xs) ys = elim ys [ nil ↦ false | item y rest ↦ py_eq x y && items_eq xs rest ]

  pub fields_eq : Fields → Fields → Bool
  fields_eq end g = true
  fields_eq (field k v f) g = elim (lookup k g) [
    | none ↦ false
    | some w ↦ py_eq v w && fields_eq f g
  ]

-- Only the text itself is equal to a text.
pub py_eq-str : (v : Value) (s : String) → py_eq v (str s) ≡ true → v ≡ str s
unfolding py_eq
py_eq-str (str t) s h = ground (arith, eq_iff t s)
py_eq-str v s h = cc

pub py_eq-null : (v : Value) → py_eq v null ≡ true → v ≡ null
unfolding py_eq
py_eq-null null h = refl
py_eq-null v h = cc

-- Of the values that pass `is_nat`, only the number itself is equal to a number.
pub py_eq-nat : (v : Value) (n : ℕ) → is_nat v ≡ true → py_eq v (nat n) ≡ true → v ≡ nat n
unfolding py_eq
py_eq-nat (int (pos m)) n i h = ap nat (omega (arith, nat_eq_lem (m * 2 ^ 0) (n * 2 ^ 0) h))
py_eq-nat v n i h = cc

pub py_eq-nat_self : (n : ℕ) → py_eq (nat n) (nat n) ≡ true
unfolding py_eq
py_eq-nat_self n = nat_eq_self (n * 2 ^ 0)

pub py_eq-str_self : (s : String) → py_eq (str s) (str s) ≡ true
unfolding py_eq
py_eq-str_self s = eq_refl s
