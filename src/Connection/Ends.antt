-- ===== src/Connection/Ends.antt =====
-- Postconditions of a connection's methods: what holds of the connection after a success and what
-- after an error, with the rules for calls and for sequences.
use sqlx_mssql_rs.Prelude.{◌≡◌, refl, Bool, true, false, if◌then◌else◌, ◌∷◌, Text}
use sqlx_mssql_rs.Tds.{TdsResult, Call, Log, Tds}
use sqlx_mssql_rs.Connection.{Outcome, ok, err, stuck, MssqlConnection, Action, continue_with, call}
use sqlx_mssql_rs.Connection.Server.{is_ok}

-- What an outcome says, `stuck` being ruled out.
abbrev pub EndsAt :
    {X P A : Type 0}
    → (A → MssqlConnection P → Type 0)
    → (MssqlConnection P → Type 0)
    → Outcome X A × MssqlConnection P
    → Type 0
EndsAt Q R (ok a, c) = Q a c
EndsAt Q R (err _, c) = R c
EndsAt Q R (stuck, c) = ⊥

-- The action has ended, with a value and a connection as in `Q` or with an error and a connection
-- as in `R`.
pub record Ends {X P A : Type 0} (Q : A → MssqlConnection P → Type 0)
    (R : MssqlConnection P → Type 0) (r : Outcome X A × MssqlConnection P) : Type 0 where
  pub holds : EndsAt Q R r

pub Ends-bind :
    {X P A B : Type 0} {Q : A → MssqlConnection P → Type 0} {Q' : B → MssqlConnection P → Type 0}
    {R : MssqlConnection P → Type 0} (f : A → Action X P B) (r : Outcome X A × MssqlConnection P)
    → Ends Q R r
    → ((a : A) (c : MssqlConnection P) → Q a c → Ends Q' R (f a c))
    → Ends Q' R (continue_with f r)
Ends-bind f (ok a, c) h k = k a c h.holds
Ends-bind f (err _, c) h k = record { holds = h.holds }
Ends-bind f (stuck, c) h k = absurd h.holds

pub Ends-both :
    {X P A : Type 0} {Q Q' : A → MssqlConnection P → Type 0} {R R' : MssqlConnection P → Type 0}
    (r : Outcome X A × MssqlConnection P)
    → Ends Q R r
    → Ends Q' R' r
    → Ends (λ a c. Q a c × Q' a c) R r
Ends-both (ok a, c) h k = record { holds = (h.holds, k.holds) }
Ends-both (err _, c) h k = record { holds = h.holds }
Ends-both (stuck, c) h k = absurd h.holds

pub Ends-mono :
    {X P A : Type 0} {Q Q' : A → MssqlConnection P → Type 0} {R R' : MssqlConnection P → Type 0}
    (r : Outcome X A × MssqlConnection P)
    → Ends Q R r
    → ((a : A) (c : MssqlConnection P) → Q a c → Q' a c)
    → ((c : MssqlConnection P) → R c → R' c)
    → Ends Q' R' r
Ends-mono (ok a, c) h k l = record { holds = k a c h.holds }
Ends-mono (err _, c) h k l = record { holds = l c h.holds }
Ends-mono (stuck, c) h k l = absurd h.holds

pub Ends-if :
    {X P A : Type 0} {Q : A → MssqlConnection P → Type 0} {R : MssqlConnection P → Type 0}
    (b : Bool) (x y : Outcome X A × MssqlConnection P)
    → (b ≡ true → Ends Q R x)
    → (b ≡ false → Ends Q R y)
    → Ends Q R (if b then x else y)
Ends-if true x y h k = h refl
Ends-if false x y h k = k refl

module _ {E P V M : Type 0} (t : Tds E P V M) where
  pub Ends-call :
      {A : Type 0} {Q : A → MssqlConnection P → Type 0} {R : MssqlConnection P → Type 0}
      (request : Call P) (reply : Log P → TdsResult E A) (context : Text) (c : MssqlConnection P)
      → ((a : A)
          → reply (request ∷ c.client) ≡ TdsResult.ok a
          → Q a (record c { client = request ∷ c.client }))
      → (is_ok (reply (request ∷ c.client)) ≡ false → R (record c { client = request ∷ c.client }))
      → Ends Q R (call t request reply context c)
  unfolding call
  Ends-call {A} {Q} {R} request reply context c h k = go (reply (request ∷ c.client)) refl
    where
      go :
          (r : TdsResult E A)
          → reply (request ∷ c.client) ≡ r
          → Ends Q R (call t request reply context c)
      go (TdsResult.ok a) e = rw (e, call) (record { holds = h a e })
      go (TdsResult.err x) e = rw (e, call) (record { holds = k (rw e) })
