-- ===== src/Parser/Total.antt =====
-- How an action of the parser ends: what is left to read, and the rules for composed actions.
pub mod Steps
pub mod Loops
pub mod Rules
pub mod Paths
pub mod Expressions
pub mod Operators
pub mod Triples
pub mod Patterns
pub mod Clauses
pub mod Queries
use sql2rdf.Base.{
  ℕ, zero, suc, ◌+◌, ◌<◌, Bool, true, false, ◌||◌, ◌&&◌, List, [], ◌∷◌, ◌++◌, length, if◌then◌else◌,
  ◌==◌, Bytes, ◌≡◌, refl, Bool-cases, inl, inr, arith,
}
use Prim.Native.String.{String}
use sql2rdf.Lexer.Token.{TokenType, Token}
use sql2rdf.Lexer.Progress.Next.{is_eof}
use sql2rdf.Parser.State.{
  Parser, Outcome, ok, parse_error, out_of_range, out_of_fuel, Action, pure, then_run, ◌>>=◌, ◌>>◌,
  error, ordinal, check, check_keyword, if_current,
}

-- The bytes that are left, and one for the token at hand.
abbrev pub size : Parser → ℕ
size s = length s.lexer.rest + (if is_eof s.current.type then 0 else 1)

-- The action has come to an end, at less than `n` if it was successful.
abbrev pub Ends {ℓ} : {A : Type ℓ} → ℕ → Outcome (A × Parser) → Type 0
Ends n (ok (x, s)) = size s < n
Ends n (parse_error message line column near) = Unit
Ends n out_of_range = Unit
Ends n out_of_fuel = ⊥

module _ {ℓ} {A : Type ℓ} where
  -- From less than `n` the action ends, with no more left than before.
  pub record Runs (n : ℕ) (m : Action A) : Type 0 where
    pub ends : (s : Parser) → size s < n → Ends (suc (size s)) (m s)

  -- From less than `n` the action ends, with less left than before.
  pub record Eats (n : ℕ) (m : Action A) : Type 0 where
    pub ends : (s : Parser) → size s < n → Ends (size s) (m s)

  -- So it does at a token that is not Eof.
  pub record Takes (n : ℕ) (m : Action A) : Type 0 where
    pub ends : (s : Parser) → size s < n → is_eof s.current.type ≡ false → Ends (size s) (m s)

-- The test fails at Eof.
pub record Live (p : Token → Bool) : Type 0 where
  pub fails : (t : Token) → is_eof t.type ≡ true → p t ≡ false

Live-not_eof : (p : Token → Bool) → Live p → (t : Token) → p t ≡ true → is_eof t.type ≡ false
Live-not_eof p l t e = elim (Bool-cases (is_eof t.type)) [ inl f ↦ cc (l.fails t f) | inr f ↦ f ]

module _ {ℓ} {A : Type ℓ} where
  pub Ends-mono : (m n : ℕ) (o : Outcome (A × Parser)) → m < suc n → Ends m o → Ends n o
  Ends-mono m n (ok (x, s)) h e = omega arith
  Ends-mono m n (parse_error message line column near) h e = tt
  Ends-mono m n out_of_range h e = tt
  Ends-mono m n out_of_fuel h e = e

  pub Eats-Runs : {n : ℕ} {m : Action A} → Eats n m → Runs n m
  Eats-Runs {m = m} e = record {
    ends = λ s h. Ends-mono (size s) (suc (size s)) (m s) (omega arith) (e.ends s h);
  }

  pub Eats-Takes : {n : ℕ} {m : Action A} → Eats n m → Takes n m
  Eats-Takes e = record { ends = λ s h _. e.ends s h }

  pub Eats-lower : {n : ℕ} {m : Action A} → Eats (suc n) m → Eats n m
  Eats-lower e = record { ends = λ s h. e.ends s (omega arith) }

  pub Runs-lower : {n : ℕ} {m : Action A} → Runs (suc n) m → Runs n m
  Runs-lower e = record { ends = λ s h. e.ends s (omega arith) }

  pub Takes-lower : {n : ℕ} {m : Action A} → Takes (suc n) m → Takes n m
  Takes-lower e = record { ends = λ s h live. e.ends s (omega arith) live }

  pub pure-Runs : {n : ℕ} (x : A) → Runs n (pure x)
  unfolding pure
  pure-Runs x = record { ends = λ s h. omega arith }

  pub error-Eats : {n : ℕ} (message : Bytes) → Eats n (error {A = A} message)
  unfolding error
  error-Eats message = record { ends = λ s h. tt }

module _ {ℓ} {A : Type ℓ} {n : ℕ} {p : Token → Bool} {x y : Action A} where
  pub if-Runs : Live p → Takes n x → Runs n y → Runs n (if_current p x y)
  unfolding if_current
  if-Runs l hx hy = record {
    ends = λ s h. elim (Bool-cases (p s.current)) [
      | inl e ↦ rw e (
          Ends-mono (size s) (suc (size s)) (x s) (omega arith)
            (hx.ends s h (Live-not_eof p l s.current e)))
      | inr e ↦ rw e (hy.ends s h)
    ];
  }

  pub if-Eats : Live p → Takes n x → Eats n y → Eats n (if_current p x y)
  unfolding if_current
  if-Eats l hx hy = record {
    ends = λ s h. elim (Bool-cases (p s.current)) [
      | inl e ↦ rw e (hx.ends s h (Live-not_eof p l s.current e))
      | inr e ↦ rw e (hy.ends s h)
    ];
  }

-- Both outcomes of a test that tells nothing of what is left.
pub branch-Runs {ℓ} :
    {A : Type ℓ} {n : ℕ} (p : Token → Bool) {x y : Action A}
    → Runs n x
    → Runs n y
    → Runs n (if_current p x y)
unfolding if_current
branch-Runs p hx hy = record {
  ends = λ s h. elim (Bool-cases (p s.current)) [
    | inl e ↦ rw e (hx.ends s h)
    | inr e ↦ rw e (hy.ends s h)
  ];
}

-- Every type but Eof.
ordinal-not_eof :
    (type u : TokenType)
    → (40 == ordinal type) ≡ false
    → is_eof u ≡ true
    → (ordinal u == ordinal type) ≡ false
unfolding ordinal
ordinal-not_eof type TokenType.eof h e = h
ordinal-not_eof type _ h e = cc

pub check-Live : (type : TokenType) → (40 == ordinal type) ≡ false → Live (check type)
unfolding check
check-Live type h = record { fails = λ t e. ordinal-not_eof type t.type h e }

and-false : (a b : Bool) → a ≡ false → (a && b) ≡ false
and-false a b h = ground arith

pub check_keyword-Live : (kw : String) → Live (check_keyword kw)
unfolding check_keyword ordinal
check_keyword-Live kw =
    let k : Live (check TokenType.keyword) = check-Live TokenType.keyword refl in
    record { fails = λ t e. and-false _ _ (k.fails t e) }

pub or-Live : {p q : Token → Bool} → Live p → Live q → Live λ t. p t || q t
or-Live hp hq = record { fails = λ t e. rw (hp.fails t e, hq.fails t e) refl }

pub and-Live : {p : Token → Bool} (q : Token → Bool) → Live p → Live λ t. p t && q t
and-Live q hp = record { fails = λ t e. rw (hp.fails t e) refl }

module _ {ℓ} {A : Type ℓ} where
  -- If the action is successful, the state is what it was.
  abbrev pub Same : Parser → Outcome (A × Parser) → Type 0
  Same s (ok (x, t)) = t ≡ s
  Same s (parse_error message line column near) = Unit
  Same s out_of_range = Unit
  Same s out_of_fuel = ⊥

  pub record Keeps (m : Action A) : Type 0 where
    pub ends : (s : Parser) → Same s (m s)

  pub pure-Keeps : (x : A) → Keeps (pure x)
  unfolding pure
  pure-Keeps x = record { ends = λ s. refl }

  pub error-Keeps : (message : Bytes) → Keeps (error {A = A} message)
  unfolding error
  error-Keeps message = record { ends = λ s. tt }

module _ {ℓ κ} {A : Type ℓ} {B : Type κ} where
  then_run-Ends :
      (m n : ℕ) (o : Outcome (A × Parser)) (f : A → Action B)
      → Ends m o
      → ((x : A) (s : Parser) → size s < m → Ends n (f x s))
      → Ends n (then_run o f)
  then_run-Ends m n (ok (x, s)) f h g = g x s h
  then_run-Ends m n (parse_error message line column near) f h g = tt
  then_run-Ends m n out_of_range f h g = tt
  then_run-Ends m n out_of_fuel f h g = h

  then_run-Same :
      (n : ℕ) (s : Parser) (o : Outcome (A × Parser)) (f : A → Action B)
      → Same s o
      → ((x : A) → Ends n (f x s))
      → Ends n (then_run o f)
  then_run-Same n s (ok (x, t)) f h g = rw h (g x)
  then_run-Same n s (parse_error message line column near) f h g = tt
  then_run-Same n s out_of_range f h g = tt
  then_run-Same n s out_of_fuel f h g = absurd h

  then_run-Same_also :
      (s : Parser) (o : Outcome (A × Parser)) (f : A → Action B)
      → Same s o
      → ((x : A) → Same s (f x s))
      → Same s (then_run o f)
  then_run-Same_also s (ok (x, t)) f h g = rw h (g x)
  then_run-Same_also s (parse_error message line column near) f h g = tt
  then_run-Same_also s out_of_range f h g = tt
  then_run-Same_also s out_of_fuel f h g = absurd h

  pub bind-Keeps :
      {m : Action A} {f : A → Action B} → Keeps m → ((x : A) → Keeps (f x)) → Keeps (m >>= f)
  unfolding ◌>>=◌
  bind-Keeps {m = m} {f = f} hm hf = record {
    ends = λ s. then_run-Same_also s (m s) f (hm.ends s) λ x. (hf x).ends s;
  }

-- An action and what follows; behind one that has read a token the bound is lower.
module _ {ℓ κ} {A : Type ℓ} {B : Type κ} {n : ℕ} {m : Action A} {f : A → Action B} where
  pub bind-Runs : Runs n m → ((x : A) → Runs n (f x)) → Runs n (m >>= f)
  unfolding ◌>>=◌
  bind-Runs hm hf = record {
    ends = λ s h. then_run-Ends (suc (size s)) (suc (size s)) (m s) f (hm.ends s h) λ x t e.
        Ends-mono (suc (size t)) (suc (size s)) (f x t) (omega arith) ((hf x).ends t (omega arith));
  }

  pub bind-Eats : Eats (suc n) m → ((x : A) → Runs n (f x)) → Eats (suc n) (m >>= f)
  unfolding ◌>>=◌
  bind-Eats hm hf = record {
    ends = λ s h. then_run-Ends (size s) (size s) (m s) f (hm.ends s h) λ x t e.
        Ends-mono (suc (size t)) (size s) (f x t) (omega arith) ((hf x).ends t (omega arith));
  }

  pub bind-Takes : Takes (suc n) m → ((x : A) → Runs n (f x)) → Takes (suc n) (m >>= f)
  unfolding ◌>>=◌
  bind-Takes hm hf = record {
    ends = λ s h live. then_run-Ends (size s) (size s) (m s) f (hm.ends s h live) λ x t e.
        Ends-mono (suc (size t)) (size s) (f x t) (omega arith) ((hf x).ends t (omega arith));
  }

  -- It is the second action that is sure to read a token.
  pub late-Eats : Runs n m → ((x : A) → Eats n (f x)) → Eats n (m >>= f)
  unfolding ◌>>=◌
  late-Eats hm hf = record {
    ends = λ s h.
        then_run-Ends (suc (size s)) (size s) (m s) f (hm.ends s h)
          λ x t e. Ends-mono (size t) (size s) (f x t) (omega arith) ((hf x).ends t (omega arith));
  }

  pub unchanged-Runs : Keeps m → ((x : A) → Runs n (f x)) → Runs n (m >>= f)
  unfolding ◌>>=◌
  unchanged-Runs hm hf = record {
    ends = λ s h. then_run-Same (suc (size s)) s (m s) f (hm.ends s) λ x. (hf x).ends s h;
  }

  pub unchanged-Takes : Keeps m → ((x : A) → Takes n (f x)) → Takes n (m >>= f)
  unfolding ◌>>=◌
  unchanged-Takes hm hf = record {
    ends = λ s h live. then_run-Same (size s) s (m s) f (hm.ends s) λ x. (hf x).ends s h live;
  }

  -- The same at one bound throughout.
  pub bind-Eats_within : Eats n m → ((x : A) → Runs n (f x)) → Eats n (m >>= f)
  unfolding ◌>>=◌
  bind-Eats_within hm hf = record {
    ends = λ s h. then_run-Ends (size s) (size s) (m s) f (hm.ends s h) λ x t e.
        Ends-mono (suc (size t)) (size s) (f x t) (omega arith) ((hf x).ends t (omega arith));
  }

  pub bind-Takes_within : Takes n m → ((x : A) → Runs n (f x)) → Takes n (m >>= f)
  unfolding ◌>>=◌
  bind-Takes_within hm hf = record {
    ends = λ s h live. then_run-Ends (size s) (size s) (m s) f (hm.ends s h live) λ x t e.
        Ends-mono (suc (size t)) (size s) (f x t) (omega arith) ((hf x).ends t (omega arith));
  }

-- Two actions in a row.
module _ {ℓ κ} {A : Type ℓ} {B : Type κ} {n : ℕ} {m : Action A} {k : Action B} where
  pub seq-Runs : Runs n m → Runs n k → Runs n (m >> k)
  unfolding ◌>>◌
  seq-Runs hm hk = bind-Runs hm λ _. hk

  pub seq-Eats : Eats (suc n) m → Runs n k → Eats (suc n) (m >> k)
  unfolding ◌>>◌
  seq-Eats hm hk = bind-Eats hm λ _. hk

  pub seq-Takes : Takes (suc n) m → Runs n k → Takes (suc n) (m >> k)
  unfolding ◌>>◌
  seq-Takes hm hk = bind-Takes hm λ _. hk

  pub seq-Eats_within : Eats n m → Runs n k → Eats n (m >> k)
  unfolding ◌>>◌
  seq-Eats_within hm hk = bind-Eats_within hm λ _. hk

  pub seq-Takes_within : Takes n m → Runs n k → Takes n (m >> k)
  unfolding ◌>>◌
  seq-Takes_within hm hk = bind-Takes_within hm λ _. hk
