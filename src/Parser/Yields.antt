-- ===== src/Parser/Yields.antt =====
-- What holds of the value that an action of the parser comes back with, and the rules for it.
pub mod Values
pub mod Template
use sql2rdf.Base.{
  ℕ, zero, suc, Bool, true, false, if◌then◌else◌, Bytes, Bool-cases, inl, inr, ◌≡◌, List, [], ◌∷◌,
  ◌++◌, All,
}
use mathlib.Core.Path.{subst}
use sql2rdf.Lexer.Token.{Token, TokenType}
use sql2rdf.Parser.State.{
  Parser, Outcome, ok, parse_error, out_of_range, out_of_fuel, Action, pure, then_run, ◌>>=◌, ◌>>◌,
  error, if_current, if_match, run_out, Turn, again, done, turned, repeat,
}

-- The value of a successful outcome.
abbrev pub Holds {ℓ} : {A : Type ℓ} → (A → Type 0) → Outcome (A × Parser) → Type 0
Holds P (ok (x, s)) = P x
Holds P (parse_error message line column near) = Unit
Holds P out_of_range = Unit
Holds P out_of_fuel = Unit

pub record Yields {ℓ} {A : Type ℓ} (P : A → Type 0) (m : Action A) : Type 0 where
  pub ends : (s : Parser) → Holds P (m s)

module _ {ℓ} {A : Type ℓ} {P : A → Type 0} where
  pub pure-Yields : (x : A) → P x → Yields P (pure x)
  unfolding pure
  pure-Yields x h = record { ends = λ s. h }

  pub error-Yields : (message : Bytes) → Yields P (error message)
  unfolding error
  error-Yields message = record { ends = λ s. tt }

  pub run_out-Yields : Yields P run_out
  unfolding run_out
  run_out-Yields = record { ends = λ s. tt }

  pub if-Yields :
      (p : Token → Bool) {x y : Action A} → Yields P x → Yields P y → Yields P (if_current p x y)
  unfolding if_current
  if-Yields p hx hy = record {
    ends = λ s. elim (Bool-cases (p s.current)) [
      | inl e ↦ rw e (hx.ends s)
      | inr e ↦ rw e (hy.ends s)
    ];
  }

module _ {ℓ κ} {A : Type ℓ} {B : Type κ} where
  then_run-Holds :
      (P : B → Type 0) (Q : A → Type 0) (o : Outcome (A × Parser)) (f : A → Action B)
      → Holds Q o
      → ((x : A) (s : Parser) → Q x → Holds P (f x s))
      → Holds P (then_run o f)
  then_run-Holds P Q (ok (x, s)) f h g = g x s h
  then_run-Holds P Q (parse_error message line column near) f h g = tt
  then_run-Holds P Q out_of_range f h g = tt
  then_run-Holds P Q out_of_fuel f h g = tt

  pub bind-Yields :
      {P : B → Type 0} {Q : A → Type 0} {m : Action A} {f : A → Action B}
      → Yields Q m
      → ((x : A) → Q x → Yields P (f x))
      → Yields P (m >>= f)
  unfolding ◌>>=◌
  bind-Yields {P = P} {Q = Q} {m = m} {f = f} hm hf = record {
    ends = λ s. then_run-Holds P Q (m s) f (hm.ends s) λ x t q. (hf x q).ends t;
  }

anything : {A : Type 0} (o : Outcome (A × Parser)) → Holds (λ x. Unit {0}) o
anything (ok (x, s)) = tt
anything (parse_error message line column near) = tt
anything out_of_range = tt
anything out_of_fuel = tt

module _ {A B : Type 0} {P : B → Type 0} (m : Action A) where
  -- Whatever the first action comes back with.
  pub then-Yields : {f : A → Action B} → ((x : A) → Yields P (f x)) → Yields P (m >>= f)
  then-Yields hf = bind-Yields {Q = λ x. Unit {0}} record { ends = λ s. anything (m s) } λ x _. hf x

  pub seq-Yields : {k : Action B} → Yields P k → Yields P (m >> k)
  unfolding ◌>>◌
  seq-Yields hk = then-Yields λ _. hk

pub match-Yields :
    {A : Type 0} {P : A → Type 0} (p : Token → Bool) {x y : Action A}
    → Yields P x
    → Yields P y
    → Yields P (if_match p x y)
unfolding if_match
match-Yields p hx hy = if-Yields p (seq-Yields _ hx) hy

-- A loop whose rounds keep `P`.
abbrev pub TurnHolds {ℓ} : {A : Type ℓ} → (A → Type 0) → Turn A → Type 0
TurnHolds P (again x) = P x
TurnHolds P (done x) = P x

module _ {A : Type 0} {P : A → Type 0} where
  turned-Yields :
      {loop : A → Action A} (turn : Turn A)
      → TurnHolds P turn
      → ((x : A) → P x → Yields P (loop x))
      → Yields P (turned loop turn)
  unfolding turned
  turned-Yields (again x) h hl = hl x h
  turned-Yields (done x) h hl = pure-Yields x h

  pub repeat-Yields :
      (fuel : ℕ) {body : A → Action (Turn A)} (x : A)
      → P x
      → ((x : A) → P x → Yields (TurnHolds P) (body x))
      → Yields P (repeat fuel body x)
  unfolding repeat
  repeat-Yields zero x h hb = run_out-Yields
  repeat-Yields (suc fuel) x h hb =
      bind-Yields (hb x h) λ turn t. turned-Yields turn t λ y q. repeat-Yields fuel y q hb
