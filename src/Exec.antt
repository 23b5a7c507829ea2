-- ===== src/Exec.antt =====
-- Code that reads and writes the database and may raise. What was written before a raise stays
-- written, so the state comes back beside the error; `atomic` is Django's `transaction.atomic`,
-- which takes the writes of a block that raises back.
use govahee.Prelude.{String, ◌≡◌, ap, refl, Bool, Option, none, some, true, false, arith}

pub data Error : Type 0 where
  -- rest_framework's ValidationError
  validation : String → Error
  -- billing.payments.service.PaymentError
  payment : String → Error
  -- Model.DoesNotExist
  does_not_exist : Error
  -- decimal.InvalidOperation
  invalid_operation : Error
  -- ValueError of int() and of date.fromisoformat()
  value_error : Error
  -- OverflowError of int()
  overflow_error : Error
  -- django.db.IntegrityError
  integrity_error : Error
  -- django.db.models.ProtectedError
  protected_error : Error
  -- TypeError
  type_error : Error
  -- AttachmentStorageError and AttachmentConfigurationError of attachments/domain/exceptions.py
  storage : String → Error
  configuration : String → Error
  -- OSError
  os_error : Error
  -- an exception of botocore
  botocore_error : Error
  -- an exception of http.client, or another one that nothing catches
  http_exception : Error

pub data Result (A : Type 0) : Type 0 where
  ok : A → Result A
  err : Error → Result A

abbrev pub Exec : Type 0 → Type 0 → Type 0
Exec S A = S → Result A × S

module _ {S A : Type 0} where
  abbrev pub pure : A → Exec S A
  pure a s = (ok a, s)

  abbrev pub raise : Error → Exec S A
  raise e s = (err e, s)

  abbrev pub gets : (S → A) → Exec S A
  gets f s = (ok (f s), s)

  -- a value that may be missing
  abbrev pub or_raise : Error → Option A → Exec S A
  or_raise e none = raise e
  or_raise e (some a) = pure a

  abbrev pub roll_back : S → Result A × S → Result A × S
  roll_back s (ok a, s') = (ok a, s')
  roll_back s (err e, s') = (err e, s)

  abbrev pub atomic : Exec S A → Exec S A
  atomic m s = roll_back s (m s)

module _ {S : Type 0} where
  abbrev pub modify : (S → S) → Exec S (Unit {0})
  modify f s = (ok tt, f s)

  abbrev pub raise_if : Bool → Error → Exec S (Unit {0})
  raise_if true e s = (err e, s)
  raise_if false e s = (ok tt, s)

module _ {S A B : Type 0} where
  infixl 5 ◌>>=◌ ◌>>◌
  abbrev pub continue : Result A × S → (A → Exec S B) → Result B × S
  continue (ok a, s) f = f a s
  continue (err e, s) f = (err e, s)

  abbrev pub ◌>>=◌ : Exec S A → (A → Exec S B) → Exec S B
  ◌>>=◌ m f s = continue (m s) f

  abbrev pub ◌>>◌ : Exec S A → Exec S B → Exec S B
  m >> k = m >>= λ _. k

-- a step that returned is followed by the rest
pub continue-ok :
    {S A B : Type 0} (r : Result A × S) (a : A) (f : A → Exec S B)
    → r.0 ≡ ok a
    → continue r f ≡ f a r.1
continue-ok (ok b, s) a f h = let same : b ≡ a = ground arith in ap (λ x. f x s) same
continue-ok (err e, s) a f h = cc

-- a block that returned has not been rolled back
pub roll_back-ok :
    {S A : Type 0} (s : S) (r : Result A × S) (a : A) (s' : S)
    → roll_back s r ≡ (ok a, s')
    → r ≡ (ok a, s')
roll_back-ok s (ok b, s2) a s' h = h
roll_back-ok s (err e, s2) a s' h = absurd (ground arith)

-- a step and what follows it have both returned
pub continue-inv :
    {S A B : Type 0} (r : Result A × S) (f : A → Exec S B) (b : B) (s' : S)
    → continue r f ≡ (ok b, s')
    → (a : A) × (r.0 ≡ ok a) × (f a r.1 ≡ (ok b, s'))
continue-inv (ok a, s) f b s' h = (a, refl, h)
continue-inv (err e, s) f b s' h = absurd (ground arith)

-- a guard in front of code that has returned
pub guard-inv :
    {S A : Type 0} (test : Bool) (e : Error) (k : Exec S A) (s : S) (a : A) (s' : S)
    → (raise_if test e >> k) s ≡ (ok a, s')
    → (test ≡ false) × (k s ≡ (ok a, s'))
guard-inv true e k s a s' h = absurd (ground arith)
guard-inv false e k s a s' h = (refl, h)
