-- ===== src/Effect.antt =====
-- Go functions that use the outside world and may return an error. The world is a parameter: what
-- lies behind the clients of DynamoDB and Redis, the clock, the random source, the goroutines.
-- What was done before an error stays done, so the world comes back beside the error too.
use realtime_messaging_platf.Prelude.{◌≡◌, ◌⊎◌, inl, inr, refl, Bool, Option, String, arith}
use realtime_messaging_platf.Domain.Errors.{Error, wrap}

pub data Result (A : Type 0) : Type 0 where
  ok : A → Result A
  err : Error → Result A

pub Result-cases :
    {A : Type 0} (r : Result A) → ((a : A) × (r ≡ ok a)) ⊎ ((e : Error) × (r ≡ err e))
Result-cases (ok a) = inl (a, refl)
Result-cases (err e) = inr (e, refl)

abbrev pub Action : Type 0 → Type 0 → Type 0
Action W A = W → Result A × W

-- A Go function that returns a value beside an error, `(bool, error)`.
abbrev pub Verdict : Type 0
Verdict = Bool × Option Error

-- `return …, fmt.Errorf("label: %w", err)`.
abbrev pub labelled : {A : Type 0} → String → Result A → Result A
labelled l (ok a) = ok a
labelled l (err e) = err (wrap l e)

pub labelled-ok : {A : Type 0} (l : String) (r : Result A) (a : A) → labelled l r ≡ ok a → r ≡ ok a
labelled-ok l (ok x) a h = h
labelled-ok l (err e) a h = absurd (ground arith)

module _ {W A : Type 0} where
  abbrev pub pure : A → Action W A
  pure a w = (ok a, w)

  abbrev pub fail : Error → Action W A
  fail e w = (err e, w)

  abbrev pub label : String → Action W A → Action W A
  label l m w = let (r, w') = m w in (labelled l r, w')

  -- The error is a value, for code that looks at it or logs it.
  abbrev pub attempt : Action W A → Action W (Result A)
  attempt m w = let (r, w') = m w in (ok r, w')

-- A call that cannot fail.
abbrev pub call : {W A : Type 0} → (W → A × W) → Action W A
call m w = let (a, w') = m w in (ok a, w')

infixl 5 ◌>>=◌ ◌>>◌
abbrev pub ◌>>=◌ : {W A B : Type 0} → Action W A → (A → Action W B) → Action W B
◌>>=◌ m f w = let (r, w') = m w in elim r [ ok a ↦ f a w' | err e ↦ (err e, w') ]

abbrev pub ◌>>◌ : {W A B : Type 0} → Action W A → Action W B → Action W B
m >> k = m >>= λ _. k
