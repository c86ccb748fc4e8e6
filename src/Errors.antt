-- ===== src/Errors.antt =====
-- Go's `(value, error)`: a gRPC status error, or an error that this program makes. The text of an
-- error of the program is the literal of its format; wrapping with `%w` passes the error on.
use Prim.Native.String.{String}
use mathlib.Core.Path.{◌≡◌, refl}
use mathlib.Core.Logic.{◌⊎◌, inl, inr}
use mathlib.Core.Bool.{Bool, true, false}

-- google.golang.org/grpc/codes, those that the program tells apart; `status.Code` of an error that
-- is no status is `unknown`.
pub data Code : Type 0 where
  not_found already_exists unavailable unknown other : Code

pub record Error : Type 0 where
  pub code : Code
  pub text : String

-- fmt.Errorf and errors.New
abbrev pub fault : String → Error
fault t = record { code = Code.unknown; text = t }

pub data Result {ℓ} (A : Type ℓ) : Type ℓ where
  ok : A → Result A
  err : Error → Result A

pub Result-cases {ℓ} :
    {A : Type ℓ} (r : Result A) → ((a : A) × (r ≡ ok a)) ⊎ ((e : Error) × (r ≡ err e))
Result-cases (ok a) = inl (a, refl)
Result-cases (err e) = inr (e, refl)

abbrev pub is_not_found : Error → Bool
is_not_found e = elim e.code [ Code.not_found ↦ true | _ ↦ false ]

abbrev pub is_already_exists : Error → Bool
is_already_exists e = elim e.code [ Code.already_exists ↦ true | _ ↦ false ]

module _ {ℓ κ} {A : Type ℓ} {B : Type κ} where
  infixl 5 ◌>>=◌ ◌>>◌
  abbrev pub ◌>>=◌ : Result A → (A → Result B) → Result B
  err problem >>= next = err problem
  ok value >>= next = next value

  abbrev pub ◌>>◌ : Result A → Result B → Result B
  first >> next = first >>= λ _. next

  -- A chain that succeeds has a first part that does.
  pub >>=-eq-ok :
      (first : Result A) (next : A → Result B) {result : B}
      → (first >>= next) ≡ ok result
      → (value : A) × (first ≡ ok value) × (next value ≡ ok result)
  >>=-eq-ok (err problem) next h = cc
  >>=-eq-ok (ok value) next h = (value, refl, h)

pub ok-injective {ℓ} : {A : Type ℓ} {a b : A} → ◌≡◌ {A = Result A} (ok a) (ok b) → a ≡ b
ok-injective h = cc
