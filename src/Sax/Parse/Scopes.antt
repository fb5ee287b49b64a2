-- ===== src/Sax/Parse/Scopes.antt =====
-- Runs from a state whose scope stack is known.
use bencode.Prelude.{◌≡◌, refl, sym, subst, List, ◌∷◌}
use bencode.Status.{Error}
use bencode.Exec.{Exec}
use bencode.Exec.Ensures
use bencode.Exec.Ensures.{Ensures, returns}
use bencode.Sax.State.{SaxScope, SaxState, state, pop_scope}

module _ {U : Type 0} where
  -- A state whose scopes are known.
  pub state_eq :
      (t : SaxState U) {scopes : List SaxScope} → t.scopes ≡ scopes → t ≡ state t.p scopes t.user
  state_eq t e = λ i. record { p = t.p; scopes = e i; user = t.user }

  pub at_state :
      {A : Type 0} {P : A → SaxState U → Type 0} {E : Error → SaxState U → Type 0}
      (m : Exec (SaxState U) A) (t : SaxState U) {scopes : List SaxScope}
      → t.scopes ≡ scopes
      → Ensures P E (m (state t.p scopes t.user))
      → Ensures P E (m t)
  at_state {P} {E} m t e h = subst (λ z. Ensures P E (m z)) (sym (state_eq t e)) h

  -- The scope that a failing call left is popped.
  pub pop_after :
      (t : SaxState U) {sc : SaxScope} {scopes : List SaxScope}
      → t.scopes ≡ sc ∷ scopes
      → Ensures {A = Unit {0}}
          (λ _ u. (u.scopes ≡ scopes) × (u.user ≡ t.user))
          (λ _ _. ⊥)
          (pop_scope t)
  unfolding pop_scope
  pop_after t e = rw (state_eq t e) (returns (refl, refl))

  -- Popping the scope behind a call that failed changes nothing else.
  pub pop_keeps :
      (F : U → Type 0) (t : SaxState U) {sc : SaxScope} {scopes : List SaxScope}
      → t.scopes ≡ sc ∷ scopes
      → F t.user
      → Ensures {A = Unit {0}} (λ _ u. (u.scopes ≡ scopes) × F u.user) (λ _ _. ⊥) (pop_scope t)
  pop_keeps F t e f =
      Ensures.mono (pop_after t e) (λ _ u (same, kept). (same, subst F (sym kept) f)) (λ _ _ q. q)
