-- ===== src/Contract/Ensures.antt =====
-- What holds after a call of src/AlphaRouting.sol that does not revert, step by step.
use alpharouting.Prelude.{
  ℕ, ◌+◌, ◌-◌, ◌^◌, ◌<◌, ◌≤◌, ◌≡◌, refl, sym, subst, inl, inr, ◌⊎◌, Bool, true, false, Bool-cases,
  Option, none, some, arith, ltb, leb, if◌then◌else◌,
}
use alpharouting.Contract.{
  State, Action, Outcome, Error, done, reverted, ◌>>=◌, pure, revert, require, decoded, look, gets,
  modify, add, sub,
}

pub done≢reverted : {A : Type 0} {a : A} {e : Error} → done a ≡ reverted e → ⊥
done≢reverted p = cc

pub done_inj : {A : Type 0} {a b : A} → done a ≡ done b → a ≡ b
done_inj p = cc

module _ {G W : Type 0} where
  -- `m` from `s` reverts, or ends with `P`.
  pub record Ensures {A : Type 0} (m : Action G W A) (s : State G W) (P : A → State G W → Type 0)
      : Type 0 where
    pub holds : (a : A) (t : State G W) → m s ≡ done (a, t) → P a t

  module _ {A : Type 0} {P : A → State G W → Type 0} {s : State G W} where
    -- Of an outcome that is known.
    by_outcome :
        (m : Action G W A)
        → ((o : Outcome (A × State G W))
            → m s ≡ o
            → (a : A) (t : State G W) → o ≡ done (a, t)
            → P a t)
        → Ensures m s P
    by_outcome m h = record { holds = λ a t p. h (m s) refl a t p }

    pub pure-Ensures : (a : A) → P a s → Ensures (pure a) s P
    unfolding pure
    pure-Ensures a h = record { holds = λ b t p. subst (λ o. P o.0 o.1) (done_inj p) h }

    pub revert-Ensures : (e : Error) → Ensures (revert e) s P
    unfolding revert
    revert-Ensures e = record { holds = λ b t p. absurd (done≢reverted {e = e} (sym p)) }

    pub gets-Ensures : (f : State G W → A) → P (f s) s → Ensures (gets f) s P
    unfolding gets
    gets-Ensures f h = record { holds = λ b t p. subst (λ o. P o.0 o.1) (done_inj p) h }

    pub decoded-Ensures : (o : Option A) → ((a : A) → o ≡ some a → P a s) → Ensures (decoded o) s P
    unfolding decoded
    decoded-Ensures none h = record { holds = λ b t p. absurd (cc p) }
    decoded-Ensures (some a) h = record {
      holds = λ b t p. subst (λ o. P o.0 o.1) (done_inj p) (h a refl);
    }

    pub look-Ensures :
        (f : W → Outcome A) → ((a : A) → f s.world ≡ done a → P a s) → Ensures (look f) s P
    unfolding look
    look-Ensures f h = record { holds = λ b t p. go (f s.world) refl b t p }
      where
        go :
            (o : Outcome A)
            → f s.world ≡ o
            → (b : A) (t : State G W) → look f s ≡ done (b, t)
            → P b t
        go (done a) q b t p = subst (λ o. P o.0 o.1) (done_inj (rw (q, look) at p)) (h a q)
        go (reverted e) q b t p = absurd (done≢reverted {e = e} (sym (rw (q, look) at p)))

    pub if-Ensures :
        (b : Bool) (m n : Action G W A)
        → (b ≡ true → Ensures m s P)
        → (b ≡ false → Ensures n s P)
        → Ensures (if b then m else n) s P
    if-Ensures true m n h k = h refl
    if-Ensures false m n h k = k refl

    pub >>=-Ensures :
        {B : Type 0} (m : Action G W B) (f : B → Action G W A)
        → Ensures m s (λ b t. Ensures (f b) t P)
        → Ensures (m >>= f) s P
    unfolding ◌>>=◌
    >>=-Ensures {B} m f h = record { holds = λ a u p. go (m s) refl a u p }
      where
        go :
            (o : Outcome (B × State G W))
            → m s ≡ o
            → (a : A) (u : State G W) → (m >>= f) s ≡ done (a, u)
            → P a u
        go (done (b, t)) q a u p = (h.holds b t q).holds a u (rw (q, ◌>>=◌) at p)
        go (reverted e) q a u p = absurd (done≢reverted {e = e} (sym (rw (q, ◌>>=◌) at p)))

    pub weaken-Ensures :
        (m : Action G W A) (Q : A → State G W → Type 0)
        → Ensures m s Q
        → ((a : A) (t : State G W) → Q a t → P a t)
        → Ensures m s P
    weaken-Ensures m Q h k = record { holds = λ a t p. k a t (h.holds a t p) }

  module _ {s : State G W} where
    pub require-Ensures :
        {P : Unit {0} → State G W → Type 0} (b : Bool) (e : Error)
        → (b ≡ true → P tt s)
        → Ensures (require b e) s P
    unfolding require
    require-Ensures {P} true e h = record {
      holds = λ b t p. subst (λ o. P o.0 o.1) (done_inj p) (h refl);
    }
    require-Ensures false e h = record { holds = λ b t p. absurd (done≢reverted {e = e} (sym p)) }

    pub modify-Ensures :
        {P : Unit {0} → State G W → Type 0} (f : State G W → State G W)
        → P tt (f s)
        → Ensures (modify f) s P
    unfolding modify
    modify-Ensures {P} f h = record { holds = λ b t p. subst (λ o. P o.0 o.1) (done_inj p) h }

    pub add-Ensures :
        {P : ℕ → State G W → Type 0} (a b : ℕ)
        → (a + b < 2 ^ 256 → P (a + b) s)
        → Ensures (add a b) s P
    unfolding add
    add-Ensures {P} a b h = record {
      holds = λ n t p. go (Bool-cases (ltb (a + b) (2 ^ 256))) n t p;
    }
      where
        go :
            (ltb (a + b) (2 ^ 256) ≡ true) ⊎ (ltb (a + b) (2 ^ 256) ≡ false)
            → (n : ℕ) (t : State G W) → add a b s ≡ done (n, t)
            → P n t
        go (inl q) n t p = subst (λ o. P o.0 o.1) (done_inj (rw (q, add) at p)) (h (ground arith))
        go (inr q) n t p = absurd (done≢reverted (sym (rw (q, add) at p)))

    pub sub-Ensures :
        {P : ℕ → State G W → Type 0} (a b : ℕ) → (b ≤ a → P (a - b) s) → Ensures (sub a b) s P
    unfolding sub
    sub-Ensures {P} a b h = record { holds = λ n t p. go (Bool-cases (leb b a)) n t p }
      where
        go :
            (leb b a ≡ true) ⊎ (leb b a ≡ false)
            → (n : ℕ) (t : State G W) → sub a b s ≡ done (n, t)
            → P n t
        go (inl q) n t p = subst (λ o. P o.0 o.1) (done_inj (rw (q, sub) at p)) (h (ground arith))
        go (inr q) n t p = absurd (done≢reverted (sym (rw (q, sub) at p)))

  pub >>=-reverted :
      {A B : Type 0} (m : Action G W A) (f : A → Action G W B) (s : State G W) (e : Error)
      → m s ≡ reverted e
      → (m >>= f) s ≡ reverted e
  unfolding ◌>>=◌
  >>=-reverted m f s e p = rw (p, ◌>>=◌)
