-- ===== src/Prelude/Panic.antt =====
-- Go code that may panic, and code that also changes an object under its lock.
use mathlib.Core.Path.{◌≡◌, refl}
use mathlib.Core.Option.{Option, none, some}

-- A panic ends the process, so nothing of the state comes back beside it.
pub data Result {ℓ} (A : Type ℓ) : Type ℓ where
  ok : A → Result A
  panic : Result A

-- An action on an object of type `S`.
abbrev pub Go {ℓ} : Type ℓ → Type ℓ → Type ℓ
Go S A = S → Result (A × S)

module _ {ℓ} {S A : Type ℓ} where
  abbrev pub pure : A → Go S A
  pure a s = ok (a, s)

  abbrev pub gets : (S → A) → Go S A
  gets f s = ok (f s, s)

  abbrev pub lift : Result A → Go S A
  lift (ok a) s = ok (a, s)
  lift panic s = panic

  -- What a Go expression on the object may do: read, or panic.
  abbrev pub reads : (S → Result A) → Go S A
  reads f s = lift (f s) s

abbrev pub modify : {S : Type 0} → (S → S) → Go S Unit
modify f s = ok (tt, f s)

module _ {ℓ} {S A B : Type ℓ} where
  infixl 5 ◌>>=◌
  abbrev pub ◌>>=◌ : Go S A → (A → Go S B) → Go S B
  ◌>>=◌ m f s = elim (m s) [ ok (a, s') ↦ f a s' | panic ↦ panic ]

infixl 5 ◌>>◌
abbrev pub ◌>>◌ : {S B : Type 0} → Go S Unit → Go S B → Go S B
◌>>◌ m k = m >>= λ _. k

module _ {ℓ} {A : Type ℓ} where
  abbrev pub or_panic : Option A → Result A
  or_panic none = panic
  or_panic (some a) = ok a

  pub Result-cases {κ} :
      {P : Type κ} (r : Result A) → ((a : A) → r ≡ ok a → P) → (r ≡ panic → P) → P
  Result-cases (ok a) f g = f a refl
  Result-cases panic f g = g refl

-- What holds of the state that an action leaves, if it does not panic.
abbrev pub After {ℓ κ} : {S A : Type ℓ} → (S → Type κ) → Result (A × S) → Type κ
After P (ok (a, s)) = P s
After P panic = Unit

pub After-mono {ℓ κ μ} :
    {S A : Type ℓ} (P : S → Type κ) (Q : S → Type μ) (r : Result (A × S))
    → ((s : S) → P s → Q s)
    → After P r
    → After Q r
After-mono P Q (ok (a, s)) f h = f s h
After-mono P Q panic f h = tt
