-- ===== src/Parser/Total/Loops.antt =====
-- How the loops of the parser end.
use sql2rdf.Base.{
  ℕ, zero, suc, ◌≤◌, ◌<◌, Bool, true, false, List, [], if◌then◌else◌, Bool-cases, inl, inr, arith,
}
use sql2rdf.Lexer.Token.{Token}
use sql2rdf.Parser.State.{
  Parser, Outcome, ok, parse_error, out_of_range, out_of_fuel, Action, pure, then_run, ◌>>=◌,
  if_match, if_current, Turn, again, done, turned, repeat, while_current, while_match, at_least_one,
}
use sql2rdf.Parser.Total.{
  size, Ends, Ends-mono, Runs, Eats, Takes, Live, Live-not_eof, Eats-lower, pure-Runs, branch-Runs,
  bind-Runs, bind-Eats, seq-Takes_within, bind-Takes_within, bind-Eats_within,
}
use sql2rdf.Parser.Total.Steps.{advance-Takes}

-- A round of a loop: it has read something if it says `again`.
abbrev pub TurnEnds {ℓ} : {A : Type ℓ} → ℕ → Outcome (Turn A × Parser) → Type 0
TurnEnds n (ok (again x, s)) = size s < n
TurnEnds n (ok (done x, s)) = size s < suc n
TurnEnds n (parse_error message line column near) = Unit
TurnEnds n out_of_range = Unit
TurnEnds n out_of_fuel = ⊥

module _ {ℓ} {A : Type ℓ} where
  pub record Turns (n : ℕ) (m : Action (Turn A)) : Type 0 where
    pub ends : (s : Parser) → size s < n → TurnEnds (size s) (m s)

  Ends-TurnEnds : (n : ℕ) (o : Outcome (Turn A × Parser)) → Ends n o → TurnEnds n o
  Ends-TurnEnds n (ok (again x, s)) e = e
  Ends-TurnEnds n (ok (done x, s)) e = omega arith
  Ends-TurnEnds n (parse_error message line column near) e = tt
  Ends-TurnEnds n out_of_range e = tt
  Ends-TurnEnds n out_of_fuel e = e

  pub Eats-Turns : {n : ℕ} {m : Action (Turn A)} → Eats n m → Turns n m
  Eats-Turns {m = m} e = record { ends = λ s h. Ends-TurnEnds (size s) (m s) (e.ends s h) }

  pub done-Turns : {n : ℕ} (x : A) → Turns n (pure (done x))
  unfolding pure
  done-Turns x = record { ends = λ s h. omega arith }

  pub if-Turns :
      {n : ℕ} {p : Token → Bool} {x y : Action (Turn A)}
      → Live p
      → Takes n x
      → Turns n y
      → Turns n (if_current p x y)
  unfolding if_current
  if-Turns {p = p} {x = x} l hx hy = record {
    ends = λ s h. elim (Bool-cases (p s.current)) [
      | inl e ↦ rw e (Ends-TurnEnds (size s) (x s) (hx.ends s h (Live-not_eof p l s.current e)))
      | inr e ↦ rw e (hy.ends s h)
    ];
  }

  pub match-Turns :
      {n : ℕ} {p : Token → Bool} {x y : Action (Turn A)}
      → Live p
      → Runs n x
      → Turns n y
      → Turns n (if_match p x y)
  unfolding if_match
  match-Turns l hx hy = if-Turns l (seq-Takes_within advance-Takes hx) hy

  turned-Ends :
      (n : ℕ) (o : Outcome (Turn A × Parser)) (loop : A → Action A)
      → TurnEnds n o
      → ((x : A) (s : Parser) → size s < n → Ends (suc (size s)) (loop x s))
      → Ends (suc n) (then_run o (turned loop))
  unfolding turned pure
  turned-Ends n (ok (again x, s)) loop e g =
      Ends-mono (suc (size s)) (suc n) (loop x s) (omega arith) (g x s e)
  turned-Ends n (ok (done x, s)) loop e g = e
  turned-Ends n (parse_error message line column near) loop e g = tt
  turned-Ends n out_of_range loop e g = tt
  turned-Ends n out_of_fuel loop e g = e

  -- A loop whose rounds read comes to an end before the fuel does.
  pub repeat-Runs :
      {n fuel : ℕ} {body : A → Action (Turn A)} (x : A)
      → n ≤ fuel
      → ((x : A) → Turns n (body x))
      → Runs n (repeat fuel body x)
  unfolding repeat ◌>>=◌
  repeat-Runs {n = n} {fuel = zero} x h turns = record { ends = λ s k. absurd (omega arith) }
  repeat-Runs {n = zero} {fuel = suc fuel} x h turns = record { ends = λ s k. absurd (omega arith) }
  repeat-Runs {n = suc n} {fuel = suc fuel} {body = body} x h turns = record {
    ends = λ s k. turned-Ends (size s) (body x s) (repeat fuel body) ((turns x).ends s k) λ y t e.
        (repeat-Runs {n = n} {fuel = fuel} {body = body} y (omega arith) lower).ends t
          (omega arith);
  }
    where
      lower : (y : A) → Turns n (body y)
      lower y = record { ends = λ s k. (turns y).ends s (omega arith) }

module _ {ℓ} {A : Type ℓ} {n fuel : ℕ} (items : List A) where
  pub while_current-Runs :
      {p : Token → Bool} {item : Action A}
      → n ≤ fuel
      → Live p
      → Takes n item
      → Runs n (while_current fuel p item items)
  unfolding while_current
  while_current-Runs h l hi =
      repeat-Runs items h λ xs. if-Turns l (bind-Takes_within hi λ x. pure-Runs _) (done-Turns xs)

  pub while_match-Runs :
      {p : Token → Bool} {item : Action A}
      → n ≤ fuel
      → Live p
      → Runs n item
      → Runs n (while_match fuel p item items)
  unfolding while_match
  while_match-Runs h l hi =
      repeat-Runs items h λ xs. match-Turns l (bind-Runs hi λ x. pure-Runs _) (done-Turns xs)

module _ {ℓ} {A : Type ℓ} where
  pub turned-Runs :
      {n : ℕ} {loop : A → Action A} (turn : Turn A)
      → ((x : A) → Runs n (loop x))
      → Runs n (turned loop turn)
  unfolding turned
  turned-Runs (again x) h = h x
  turned-Runs (done x) h = pure-Runs x

  -- A loop whose rounds all read.
  pub repeat-Eats :
      (n fuel : ℕ) {body : A → Action (Turn A)} (x : A)
      → n ≤ fuel
      → ((x : A) → Eats n (body x))
      → Eats n (repeat fuel body x)
  unfolding repeat
  repeat-Eats zero fuel x h eats = record { ends = λ s k. absurd (omega arith) }
  repeat-Eats (suc n) zero x h eats = absurd (omega arith)
  repeat-Eats (suc n) (suc fuel) x h eats = bind-Eats (eats x) λ turn.
      turned-Runs turn λ y. repeat-Runs y (omega arith) λ z. Eats-Turns (Eats-lower (eats z))

module _ {ℓ} {A : Type ℓ} where
  pub at_least_one-Eats :
      {n fuel : ℕ} (p : Token → Bool) {item : Action A}
      → n ≤ fuel
      → Eats n item
      → Eats n (at_least_one fuel p item)
  unfolding at_least_one
  at_least_one-Eats {n = n} {fuel = fuel} p h hi =
      repeat-Eats n fuel [] h
        λ xs. bind-Eats_within hi λ x. branch-Runs p (pure-Runs _) (pure-Runs _)

  pub branch-Turns :
      {n : ℕ} (p : Token → Bool) {x y : Action (Turn A)}
      → Turns n x
      → Turns n y
      → Turns n (if_current p x y)
  unfolding if_current
  branch-Turns p hx hy = record {
    ends = λ s h. elim (Bool-cases (p s.current)) [
      | inl e ↦ rw e (hx.ends s h)
      | inr e ↦ rw e (hy.ends s h)
    ];
  }

  pub Turns-if :
      {n : ℕ} (b : Bool) {x y : Action (Turn A)}
      → Turns n x
      → Turns n y
      → Turns n (if b then x else y)
  Turns-if true hx hy = hx
  Turns-if false hx hy = hy

  pub Runs-if :
      {n : ℕ} (b : Bool) {x y : Action A} → Runs n x → Runs n y → Runs n (if b then x else y)
  Runs-if true hx hy = hx
  Runs-if false hx hy = hy
