-- ===== src/Py/Stateful.antt =====
-- Code that reads and changes a state and may raise. What was changed before an exception stays.
use amarr.Py.Result.{Result, ok, err}

abbrev pub Stateful : Type 0 → Type 0 → Type 0
Stateful S A = S → Result A × S

abbrev pub continue : {S A B : Type 0} → Result A × S → (A → Stateful S B) → Result B × S
continue (ok a, s) f = f a s
continue (err e, s) f = (err e, s)

infixl 5 ◌>>=◌ ◌>>◌
abbrev pub ◌>>=◌ : {S A B : Type 0} → Stateful S A → (A → Stateful S B) → Stateful S B
◌>>=◌ m f s = continue (m s) f

abbrev pub ◌>>◌ : {S B : Type 0} → Stateful S (Unit {0}) → Stateful S B → Stateful S B
m >> k = m >>= λ _. k

-- A result that needs no state
abbrev pub lift : {S A : Type 0} → Result A → Stateful S A
lift r s = (r, s)
