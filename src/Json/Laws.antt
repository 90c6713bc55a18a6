-- ===== src/Json/Laws.antt =====
-- Laws of the dict operations, and decidable equality of values.
use native.Mathlib.Decide.{ℕ_discrete}
use loop_engineer.Common.{
  String, ◌≡◌, refl, inl, inr, some, arith, ◌==◌, eq_iff, Bool-cases, if◌then◌else◌,
}
use loop_engineer.Json.{ℤ, Value, Fields, end, field, lookup, assign}

pub String-discrete : Discrete String
String-discrete s t = elim (Bool-cases (s == t)) [
  | inl e ↦ yes ((eq_iff s t).0 e)
  | inr n ↦ no (λ p. ground (arith, (eq_iff s t).1 p))
]

ℤ-discrete : Discrete ℤ
ℤ-discrete = hlevel ℕ_discrete

pub Value-discrete : Discrete Value
Value-discrete = hlevel (String-discrete, ℤ-discrete, ℕ_discrete)

pub lookup-assign :
    (k j : String) (v : Value) (f : Fields)
    → lookup j (assign k v f) ≡ (if j == k then some v else lookup j f)
lookup-assign k j v end = refl
lookup-assign k j v (field i w f) =
    ground (arith, eq_iff j k, eq_iff k i, eq_iff j i, lookup-assign k j v f)
