-- ===== src/Prelude/Action.antt =====
-- A handler of a page: it reads and changes the page's state, calls the API and may throw. The
-- answers of the API are arguments of the handler.
use Prim.Native.String.{String}
use ansible_aam.Prelude.Result.{Result, ok, err}

abbrev pub Action : Type 0 → Type 0 → Type 0
Action S T = S → Result T × S

abbrev go_on : {S T U : Type 0} → Result T × S → (T → Action S U) → Result U × S
go_on (err message, s) next = (err message, s)
go_on (ok value, s) next = next value s

infixl 5 ◌>>=◌
abbrev pub ◌>>=◌ : {S T U : Type 0} → Action S T → (T → Action S U) → Action S U
◌>>=◌ first next s = go_on (first s) next

infixl 5 ◌>>◌
abbrev pub ◌>>◌ : {S U : Type 0} → Action S (Unit {0}) → Action S U → Action S U
◌>>◌ first next s = go_on (first s) (λ _. next)

-- A state change that cannot throw.
abbrev pub change : {S : Type 0} → (S → S) → Action S (Unit {0})
change f s = (ok tt, f s)

-- The answer of a call that leaves the page as it is.
abbrev pub answer : {S T : Type 0} → Result T → Action S T
answer r s = (r, s)

-- The state after `try { body } catch (err) { caught }`.
abbrev pub after_catch : {S T : Type 0} → (String → S → S) → Result T × S → S
after_catch caught (ok value, s) = s
after_catch caught (err message, s) = caught message s

-- The state after `try { body } catch (err) { caught } finally { last }`. An error that the API
-- client throws is an `Error`, so its message is what the handlers show.
abbrev pub attempt : {S T : Type 0} → Action S T → (String → S → S) → (S → S) → S → S
attempt body caught last s = last (after_catch caught (body s))
