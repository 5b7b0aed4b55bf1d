-- ===== src/Status.antt =====
-- common/status.h and common/status.cc: the outcome of an operation.
use flotilladb.Base.{ℕ, ◌≡◌, refl, Bool, true, false, List, [], ◌∷◌, ◌++◌}
use flotilladb.Base.Texts.{codes}

pub data Code : Type 0 where
  ok not_found corruption io_error invalid_argument not_leader timeout aborted conflict : Code

pub record Status : Type 0 where
  pub code : Code
  pub message : List ℕ

-- `Status::OK()`
abbrev pub fine : Status
fine = record { code = ok; message = [] }

abbrev pub failure : Code → List ℕ → Status
failure code message = record { code = code; message = message }

unfoldable pub is_ok : Status → Bool
is_ok s = elim s.code [ ok ↦ true | _ ↦ false ]

unfoldable pub code_name : Code → List ℕ
code_name ok = codes "OK"
code_name not_found = codes "not found"
code_name corruption = codes "corruption"
code_name io_error = codes "io error"
code_name invalid_argument = codes "invalid argument"
code_name not_leader = codes "not leader"
code_name timeout = codes "timeout"
code_name aborted = codes "aborted"
code_name conflict = codes "conflict"

unfoldable pub named : List ℕ → List ℕ → List ℕ
named name [] = name
named name (c ∷ cs) = name ++ codes ": " ++ c ∷ cs

-- `ToString`
unfoldable pub status_text : Status → List ℕ
unfolding named
status_text s = elim s.code [ ok ↦ code_name ok | code ↦ named (code_name code) s.message ]

-- An operation's result, or the status that it fails with
pub data Result {ℓ} (A : Type ℓ) : Type ℓ where
  done : A → Result A
  failed : Status → Result A

infixl 5 ◌>>=◌
abbrev pub ◌>>=◌ {ℓ κ} : {A : Type ℓ} {B : Type κ} → Result A → (A → Result B) → Result B
done a >>= f = f a
failed s >>= f = failed s

pub >>=-eq-done {ℓ κ} :
    {A : Type ℓ} {B : Type κ} (m : Result A) (f : A → Result B) {b : B}
    → (m >>= f) ≡ done b
    → (a : A) × (m ≡ done a) × (f a ≡ done b)
>>=-eq-done (done a) f h = (a, refl, h)
>>=-eq-done (failed s) f h = cc
