-- ===== src/Contract/Answers.antt =====
-- src/AlphaRouting.sol: how the steps end, by what they are answered.
pub mod Sales
pub mod Callback
pub mod Complete
mod Tests
use alpharouting.Prelude.{
  ℕ, ◌+◌, ◌-◌, ◌^◌, ◌<◌, ◌≤◌, ◌≡◌, refl, ap, Bool, true, Option, some, arith, ltb, leb,
  if◌then◌else◌,
}
use alpharouting.Contract.{
  State, Action, Outcome, Error, done, ◌>>=◌, require, decoded, look, gets, modify, add, sub,
}

module _ {G W : Type 0} where
  -- `m` from `s` ends with `a` in `t`.
  pub record Ends {A : Type 0} (m : Action G W A) (s : State G W) (a : A) (t : State G W)
      : Type 0 where
    pub ends : m s ≡ done (a, t)

  -- The first part ends, and so does the rest from there.
  pub >>=-Ends :
      {A B : Type 0} (m : Action G W A) (f : A → Action G W B) {s t u : State G W} {a : A} {b : B}
      → Ends m s a t
      → Ends (f a) t b u
      → Ends (m >>= f) s b u
  unfolding ◌>>=◌
  >>=-Ends m f p q = record { ends = rw (p.ends, ◌>>=◌) q.ends }

  module _ {A : Type 0} {s : State G W} where
    pub look-Ends : (f : W → Outcome A) {a : A} → f s.world ≡ done a → Ends (look f) s a s
    unfolding look
    look-Ends f p = record { ends = rw (p, look) }

    pub decoded-Ends : (o : Option A) {a : A} → o ≡ some a → Ends (decoded o) s a s
    unfolding decoded
    decoded-Ends o p = record { ends = rw (p, decoded) }

    pub gets-Ends : (f : State G W → A) → Ends (gets f) s (f s) s
    unfolding gets
    gets-Ends f = record { ends = refl }

  module _ {s : State G W} where
    pub require-Ends : (b : Bool) (e : Error) → b ≡ true → Ends (require b e) s tt s
    unfolding require
    require-Ends b e p = record { ends = rw (p, require) }

    pub modify-Ends : (f : State G W → State G W) → Ends (modify f) s tt (f s)
    unfolding modify
    modify-Ends f = record { ends = refl }

    pub add-Ends : (a b : ℕ) → a + b < 2 ^ 256 → Ends (add a b) s (a + b) s
    unfolding add
    add-Ends a b h =
        let p : ltb (a + b) (2 ^ 256) ≡ true = ground arith in record { ends = rw (p, add) }

    pub sub-Ends : (a b : ℕ) → b ≤ a → Ends (sub a b) s (a - b) s
    unfolding sub
    sub-Ends a b h = let p : leb b a ≡ true = ground arith in record { ends = rw (p, sub) }
