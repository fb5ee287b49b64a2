-- ===== src/Sax/State.antt =====
-- src/parse_sax.c: `sax_scope`, `sax_state`, the helpers on the cursor, the scope stack and the
-- calls of the caller's callbacks (include/bencode/bencode.h).
use mathlib.Core.Option
use bencode.Prelude.{
  ℕ, zero, suc, Bytes, Bool, true, false, Option, none, some, List, [], ◌∷◌, ltb, leb,
  if◌then◌else◌, length, drop, ◌≡◌, refl, ◌∙◌, ◌≤◌, arith,
}
use bencode.Prelude.Int.{ℤ}
use bencode.Status.{Error, ok, err, Status, nesting_too_deep}
use bencode.Grammar.{
  Event, on_int, on_string, on_list_begin, on_list_end, on_dict_begin, on_dict_end,
}
use bencode.Exec.{Exec, pure, fail, lift, fault}
use bencode.Exec.Ensures.{Ensures, returns, raises}

-- BENCODE_INTERNAL_MAX_DEPTH, the size of the array `scopes`.
abbrev pub internal_max_depth : ℕ
internal_max_depth = 256

-- `last_key` is NULL until the first key arrives.
pub record SaxScope : Type 0 where
  pub is_dict : Bool
  pub expecting_key : Bool
  pub last_key : Option Bytes

-- `p` holds the bytes from the cursor up to `end`. `scopes` holds scopes[depth - 1], ...,
-- scopes[0], so `depth` is its length; the other cells are never read before they are written.
-- The fields that no function writes (`cb`, `max_depth`) are arguments, and `origin` is the input.
pub record SaxState (U : Type 0) : Type 0 where
  pub p : Bytes
  pub scopes : List SaxScope
  pub user : U

-- A callback that is NULL is `none`.
pub record Callbacks (U : Type 0) : Type 0 where
  pub int_callback : Option (ℤ → U → Status × U)
  pub string_callback : Option (Bytes → U → Status × U)
  pub list_begin_callback : Option (U → Status × U)
  pub list_end_callback : Option (U → Status × U)
  pub dict_begin_callback : Option (U → Status × U)
  pub dict_end_callback : Option (U → Status × U)

abbrev pub ends : Bytes → Bool
ends [] = true
ends (c ∷ cs) = false

module _ {U : Type 0} where
  abbrev pub callback_of : Callbacks U → Event → Option (U → Status × U)
  callback_of cb (on_int i) = Option.map (λ f. f i) cb.int_callback
  callback_of cb (on_string bs) = Option.map (λ f. f bs) cb.string_callback
  callback_of cb on_list_begin = cb.list_begin_callback
  callback_of cb on_list_end = cb.list_end_callback
  callback_of cb on_dict_begin = cb.dict_begin_callback
  callback_of cb on_dict_end = cb.dict_end_callback

  abbrev call : Option (U → Status × U) → U → Status × U
  call none u = (ok tt, u)
  call (some f) u = f u

  -- `if (s->cb != NULL && s->cb->on_x != NULL) { return s->cb->on_x(..., s->user); }`
  abbrev pub fire : Option (Callbacks U) → Event → U → Status × U
  fire none e u = (ok tt, u)
  fire (some cb) e u = call (callback_of cb e) u

  unfoldable pub notify : Option (Callbacks U) → Event → Exec (SaxState U) (Unit {0})
  notify cb e s = let (st, u) = fire cb e s.user in lift st (record s { user = u })

  unfoldable pub at_end : Exec (SaxState U) Bool
  at_end s = pure (ends s.p) s

  abbrev first_of_input : Bytes → Exec (SaxState U) ℕ
  first_of_input [] = fault
  first_of_input (c ∷ cs) = pure c

  -- Reading at `end` is out of bounds.
  unfoldable pub peek : Exec (SaxState U) ℕ
  peek s = first_of_input s.p s

  abbrev pub skip : ℕ → Bytes → Exec (SaxState U) (Unit {0})
  skip zero cs s = pure tt (record s { p = cs })
  skip (suc n) [] s = fault s
  skip (suc n) (c ∷ cs) s = skip n cs s

  -- `s->p += n`, which may not leave the input.
  unfoldable pub advance : ℕ → Exec (SaxState U) (Unit {0})
  advance n s = skip n s.p s

  unfoldable pub push_scope : ℕ → Bool → Exec (SaxState U) (Unit {0})
  push_scope max_depth is_dict s =
      let depth = length s.scopes in
      let sc : SaxScope = record { is_dict = is_dict; expecting_key = is_dict; last_key = none } in
      if leb max_depth depth
      then fail nesting_too_deep s
      else if ltb depth internal_max_depth
      then pure tt (record s { scopes = sc ∷ s.scopes })
      else fault s

  abbrev drop_scope : List SaxScope → Exec (SaxState U) (Unit {0})
  drop_scope [] s = fault s
  drop_scope (sc ∷ scs) s = pure tt (record s { scopes = scs })

  -- At depth 0 the decrement would wrap around.
  unfoldable pub pop_scope : Exec (SaxState U) (Unit {0})
  pop_scope s = drop_scope s.scopes s

  abbrev innermost : List SaxScope → Exec (SaxState U) SaxScope
  innermost [] = fault
  innermost (sc ∷ scs) = pure sc

  -- `&s->scopes[s->depth - 1]`
  unfoldable pub current_scope : Exec (SaxState U) SaxScope
  current_scope s = innermost s.scopes s

  abbrev overwrite : SaxScope → List SaxScope → Exec (SaxState U) (Unit {0})
  overwrite sc' [] s = fault s
  overwrite sc' (sc ∷ scs) s = pure tt (record s { scopes = sc' ∷ scs })

  -- A write through that pointer.
  unfoldable pub set_scope : SaxScope → Exec (SaxState U) (Unit {0})
  set_scope sc s = overwrite sc s.scopes s

  abbrev pub state : Bytes → List SaxScope → U → SaxState U
  state p scopes user = record { p = p; scopes = scopes; user = user }

-- Everything but the cursor is left alone.
pub record Keeps {U : Type 0} (s t : SaxState U) : Type 0 where
  pub scopes_kept : t.scopes ≡ s.scopes
  pub user_kept : t.user ≡ s.user

module _ {U : Type 0} where
  pub kept :
      {p q : Bytes} {scopes : List SaxScope} {user : U}
      → Keeps (state p scopes user) (state q scopes user)
  kept = record { scopes_kept = refl; user_kept = refl }

  pub moved :
      {p q : Bytes} {scopes : List SaxScope} {user : U} {t : SaxState U}
      → Keeps (state p scopes user) t
      → Keeps (state q scopes user) t
  moved k = record { scopes_kept = k.scopes_kept; user_kept = k.user_kept }

  pub Keeps-trans : {s t u : SaxState U} → Keeps s t → Keeps t u → Keeps s u
  Keeps-trans a b = record {
    scopes_kept = b.scopes_kept ∙ a.scopes_kept;
    user_kept = b.user_kept ∙ a.user_kept;
  }

  -- The cursor moves over bytes that are there.
  pub skip_lem :
      (n : ℕ) (cs : Bytes) (s : SaxState U)
      → n ≤ length cs
      → skip n cs s ≡ pure tt (record s { p = drop n cs })
  skip_lem zero cs s h = refl
  skip_lem (suc n) [] s h = absurd (omega arith)
  skip_lem (suc n) (c ∷ cs) s h = skip_lem n cs s (omega arith)

  -- The callback did not return BENCODE_OK, and left `v`.
  abbrev pub Aborts : Option (Callbacks U) → Event → U → U → Type 0
  Aborts cb e u v = (x : Error) × (fire cb e u ≡ (err x, v))

  -- A callback sees the user's data alone.
  pub notify-Ensures :
      (cb : Option (Callbacks U)) (e : Event) (s : SaxState U)
      → Ensures
          (λ _ t. (t.p ≡ s.p) × (t.scopes ≡ s.scopes) × (fire cb e s.user ≡ (ok tt, t.user)))
          (λ _ t. (t.scopes ≡ s.scopes) × Aborts cb e s.user t.user)
          (notify cb e s)
  unfolding notify
  notify-Ensures cb e s = go (fire cb e s.user) refl
    where
      go :
          (o : Status × U)
          → fire cb e s.user ≡ o
          → Ensures
              (λ _ t. (t.p ≡ s.p) × (t.scopes ≡ s.scopes) × (fire cb e s.user ≡ (ok tt, t.user)))
              (λ _ t. (t.scopes ≡ s.scopes) × Aborts cb e s.user t.user)
              (lift o.0 (record s { user = o.1 }))
      go (ok _, u) h = returns (refl, refl, h)
      go (err x, u) h = raises (refl, (x, h))
