-- ===== src/Common/Guards.antt =====
-- A chain of tests, each with the error that its failure has: `none` where every test passes.
use mathlib.Core.Path.{◌≡◌, refl}
use mathlib.Core.Bool.{Bool, true, false}
use mathlib.Core.Option.{Option, none, some}

module _ {ℓ} {E : Type ℓ} where
  -- `if not test: return error`
  abbrev pub unless : Bool → E → Option E → Option E
  unless true error rest = rest
  unless false error rest = some error

  abbrev pub first_of : Option E → Option E → Option E
  first_of none rest = rest
  first_of (some error) rest = some error

  pub unless-none :
      (b : Bool) (e : E) (k : Option E) → unless b e k ≡ none → (b ≡ true) × (k ≡ none)
  unless-none true e k h = (refl, h)
  unless-none false e k h = absurd (cc)

  pub first_of-none : (a b : Option E) → first_of a b ≡ none → (a ≡ none) × (b ≡ none)
  first_of-none none b h = (refl, h)
  first_of-none (some e) b h = absurd (cc)

  -- A chain that ends in an error is an error.
  abbrev pub Fails : Option E → Type ℓ
  Fails o = (e : E) × (o ≡ some e)

  pub unless-Fails : (b : Bool) (e : E) (o : Option E) → Fails o → Fails (unless b e o)
  unless-Fails true e o h = h
  unless-Fails false e o h = (e, refl)

  pub first_of-Fails : (a o : Option E) → Fails o → Fails (first_of a o)
  first_of-Fails none o h = h
  first_of-Fails (some e) o h = (e, refl)
