-- ===== src/Base/Equality.antt =====
-- Go's `==` for every type whose equality can be decided, the conditional, and Go's strings as
-- sequences of bytes.
use Prim.Native.Nat.{ℕ}
use Prim.Native.Char.{code}
use Prim.Native.String.{String}
use mathlib.Core.Path.{◌≡◌, refl, ap₂}
use mathlib.Core.Logic.{◌≢◌, ite, if_pos, dite}
use mathlib.Core.Bool.{Bool, true, false, cond, ◌||◌}
use mathlib.Core.List.{List, [], ◌∷◌}
use native.Mathlib.Omega.{arith}
use native.Mathlib.Decide.{ℕ_discrete}

infix 1 if◌then◌else◌
abbrev pub if◌then◌else◌ {ℓ} : {A : Type ℓ} → Bool → A → A → A
if b then x else y = cond b x y

pub record Eq {ℓ} (A : Type ℓ) : Type ℓ where
  pub dec : Discrete A

module _ {ℓ} {A : Type ℓ} ⦃e : Eq A⦄ where
  infix 50 ◌==◌
  abbrev pub ◌==◌ : A → A → Bool
  a == b = ite (e.dec a b) true false

  abbrev pub contains : List A → A → Bool
  contains [] a = false
  contains (x ∷ xs) a = x == a || contains xs a

  pub ==-refl : (a : A) → (a == a) ≡ true
  ==-refl a = rw (if_pos _ refl)

-- A Go string: its bytes.
abbrev pub Text : Type 0
Text = List ℕ

-- A literal. Those of the program are ASCII, so their bytes are their code points.
unfoldable pub text : String → Text
text String.[] = []
text (String.◌∷◌ c s) = code c ∷ text s

nil-ne-cons : (b : ℕ) (t : Text) → ◌≢◌ {A = Text} [] (b ∷ t)
nil-ne-cons b t e = cc

cons-ne-nil : (a : ℕ) (s : Text) → ◌≢◌ {A = Text} (a ∷ s) []
cons-ne-nil a s e = cc

cons-eq-cons : (a b : ℕ) (s t : Text) → ◌≡◌ {A = Text} (a ∷ s) (b ∷ t) → (a ≡ b) × (s ≡ t)
cons-eq-cons a b s t e = ground arith

unfoldable pub text_dec : Discrete Text
unfolding nil-ne-cons cons-ne-nil cons-eq-cons
text_dec [] [] = yes refl
text_dec [] (b ∷ t) = no (nil-ne-cons b t)
text_dec (a ∷ s) [] = no (cons-ne-nil a s)
text_dec (a ∷ s) (b ∷ t) =
    dite (ℕ_discrete a b)
      (λ p.
        dite (text_dec s t) (λ q. yes (ap₂ ◌∷◌ p q)) (λ n. no (λ e. n (cons-eq-cons a b s t e).1)))
      (λ n. no (λ e. n (cons-eq-cons a b s t e).0))

-- Shut in proofs, where a split on `s == t` yields the equation or its negation.
instance unfoldable pub text_eq : Eq Text
unfolding text_dec ℕ_discrete
text_eq = record { dec = text_dec }

instance abbrev pub nat_eq : Eq ℕ
nat_eq = record { dec = ℕ_discrete }
