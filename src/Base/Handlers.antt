-- ===== src/Base/Handlers.antt =====
-- Handlers: code that acts on the outside, may return a truth value early, and may not come to an end of
-- its own. `E` is the type of its actions.
use Prim.Native.Nat.{ℕ}
use mathlib.Core.Bool.{Bool, true, false}
use mathlib.Core.Option.{Option, none, some}
use mathlib.Core.List.{List, [], ◌∷◌, ◌++◌}
use mathlib.Core.Path.{◌≡◌, refl, sym, ap, ◌∙◌}
use mathlib.Core.List.{append_assoc, append-nil}
use inferno_game_server.Base.Results.{Result, ok, err}

-- `blocked`: waits for input that does not come. `overflow`: writes outside an array. `unterminated`:
-- reads a C string past the end of its array. `sql_exception`: an SQLException is thrown, and not caught.
pub data Fault : Type 0 where
  blocked overflow unterminated sql_exception : Fault

pub data Outcome (A : Type 0) : Type 0 where
  done : A → Outcome A
  returned : Bool → Outcome A
  fault : Fault → Outcome A

abbrev pub Handler : Type 0 → Type 0 → Type 0
Handler E A = List E → Outcome A × List E

abbrev pub continue : {E A B : Type 0} → Outcome A × List E → (A → Handler E B) → Outcome B × List E
continue (done a, log) k = k a log
continue (returned r, log) k = (returned r, log)
continue (fault e, log) k = (fault e, log)

infixl 5 ◌>>=◌ ◌>>◌
abbrev pub ◌>>=◌ : {E A B : Type 0} → Handler E A → (A → Handler E B) → Handler E B
◌>>=◌ m k log = continue (m log) k

abbrev pub ◌>>◌ : {E B : Type 0} → Handler E (Unit {0}) → Handler E B → Handler E B
◌>>◌ m k = m >>= λ _. k

abbrev pub pure : {E A : Type 0} → A → Handler E A
pure a log = (done a, log)

abbrev pub act : {E : Type 0} → E → Handler E (Unit {0})
act a log = (done tt, log ++ a ∷ [])

abbrev pub return : {E A : Type 0} → Bool → Handler E A
return r log = (returned r, log)

abbrev pub stop : {E A : Type 0} → Fault → Handler E A
stop e log = (fault e, log)

-- `if(!ok) { .. return false; }`
abbrev pub require : {E : Type 0} → Bool → Handler E (Unit {0})
require true log = (done tt, log)
require false log = (returned false, log)

-- What a loop over input gives.
abbrev pub from : {E A : Type 0} → Result Fault A → Handler E A
from (ok a) log = (done a, log)
from (err e) log = (fault e, log)

-- A C string of an array.
abbrev pub terminated : {E : Type 0} → Option (List ℕ) → Handler E (List ℕ)
terminated none log = (fault unterminated, log)
terminated (some s) log = (done s, log)

-- A handler only adds to the log, and does the same on any log.
pub record IsWriter {E A : Type 0} (m : Handler E A) : Type 0 where
  pub adds : (log : List E) → m log ≡ ((m []).0, log ++ (m []).1)

abbrev prepend : {E A : Type 0} → List E → Outcome A × List E → Outcome A × List E
prepend log r = (r.0, log ++ r.1)

module _ {E A : Type 0} where
  adds_nothing : (o : Outcome A) (m : Handler E A) → m ≡ (λ log. (o, log)) → IsWriter m
  adds_nothing o m e = rw e (record { adds = λ log. ap (λ l. (o, l)) (sym (append-nil log)) })

  pub pure-IsWriter : (a : A) → IsWriter {E = E} (pure a)
  pure-IsWriter a = adds_nothing (done a) _ refl

  pub return-IsWriter : (b : Bool) → IsWriter {E = E} {A = A} (return b)
  return-IsWriter b = adds_nothing (returned b) _ refl

  pub stop-IsWriter : (e : Fault) → IsWriter {E = E} {A = A} (stop e)
  stop-IsWriter e = adds_nothing (fault e) _ refl

  pub from-IsWriter : (r : Result Fault A) → IsWriter {E = E} (from r)
  from-IsWriter (ok a) = adds_nothing (done a) _ refl
  from-IsWriter (err e) = adds_nothing (fault e) _ refl

module _ {E : Type 0} where
  pub act-IsWriter : (a : E) → IsWriter (act a)
  act-IsWriter a = record { adds = λ log. refl }

  pub require-IsWriter : (b : Bool) → IsWriter {E = E} (require b)
  require-IsWriter true = adds_nothing (done tt) _ refl
  require-IsWriter false = adds_nothing (returned false) _ refl

  pub terminated-IsWriter : (s : Option (List ℕ)) → IsWriter {E = E} (terminated s)
  terminated-IsWriter none = adds_nothing (fault unterminated) _ refl
  terminated-IsWriter (some s) = adds_nothing (done s) _ refl

module _ {E A B : Type 0} where
  continue-prepend :
      (k : A → Handler E B)
      → ((a : A) → IsWriter (k a))
      → (log : List E) (r : Outcome A × List E)
      → continue (prepend log r) k ≡ prepend log (continue r k)
  continue-prepend k h log (done a, l) =
      (h a).adds (log ++ l)
      ∙ (ap (λ m. ((k a []).0, m)) (append_assoc log l (k a []).1)
          ∙ ap (prepend log) (sym ((h a).adds l)))
  continue-prepend k h log (returned b, l) = refl
  continue-prepend k h log (fault e, l) = refl

  pub >>=-IsWriter :
      (m : Handler E A) (k : A → Handler E B)
      → IsWriter m
      → ((a : A) → IsWriter (k a))
      → IsWriter (m >>= k)
  >>=-IsWriter m k h g = record {
    adds = λ log. ap (λ r. continue r k) (h.adds log) ∙ continue-prepend k g log (m []);
  }

pub ruleset writers = (
  pure-IsWriter, return-IsWriter, stop-IsWriter, from-IsWriter, act-IsWriter, require-IsWriter,
  terminated-IsWriter, >>=-IsWriter,
)
