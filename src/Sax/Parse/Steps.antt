-- ===== src/Sax/Parse/Steps.antt =====
-- How the steps of the parser compose while the callbacks accept or abort.
use bencode.Prelude.{
  ℕ, suc, ◌≤◌, ◌≢◌, ◌≡◌, refl, Bytes, Bool, true, false, Option, none, some, List, [], ◌∷◌, ◌++◌,
  length, ◌==◌, leb, ltb, arith,
}
use bencode.Status.{Status, ok, err}
use bencode.KeyOrder.{Ordering}
use bencode.KeyOrder.Laws.{bytes_cmp_unique}
use bencode.Grammar.{Event, on_string}
use bencode.Exec.{Run, returned, Exec, lift, or_else, ◌>>=◌, ◌>>◌}
use bencode.Sax.State.{
  SaxScope, SaxState, Callbacks, state, fire, push_scope, pop_scope, notify, internal_max_depth,
}
use bencode.Sax.Events.{deliver, deliver-append, unless_aborted}
use bencode.Sax.Scan.{is_digit, parse_string}
use bencode.Sax.Parse.{
  check_order, accept_key, list_round, dict_round, dispatch, parse_dict_key, expect_key,
}
use bencode.Sax.Parse.Keys.{KeyAfter, scope}

-- A run ends as the callbacks do: it stops at `rest`, or where one of them aborted. The scopes are
-- `scopes` in both cases.
abbrev pub Completes :
    {U : Type 0} → Bytes → List SaxScope → Status × U → Run (SaxState U) (Unit {0}) → Type 0
Completes rest scopes (ok tt, u) r = r ≡ returned (ok tt) (state rest scopes u)
Completes rest scopes (err x, u) r = (p : Bytes) × (r ≡ returned (err x) (state p scopes u))

check_order-ok :
    (last : Option Bytes) (key : Bytes) → KeyAfter last key → check_order last key ≡ ok tt
unfolding check_order
check_order-ok none key h = refl
check_order-ok (some last) key h = rw (bytes_cmp_unique last key Ordering.lt h)

module _ {U : Type 0} (cb : Option (Callbacks U)) where
  pub notify-Completes :
      (e : Event) (p : Bytes) (scopes : List SaxScope) (user : U)
      → Completes p scopes (deliver cb (e ∷ []) user) (notify cb e (state p scopes user))
  unfolding notify deliver
  notify-Completes e p scopes user = go (fire cb e user)
    where
      go :
          (o : Status × U)
          → Completes p scopes (unless_aborted o (deliver cb [])) (lift o.0 (state p scopes o.1))
      go (ok _, u) = refl
      go (err x, u) = (p, refl)

  -- A nested call whose error pops the scope, and what follows it.
  pub then-Completes :
      (es fs : List Event) (m k : Exec (SaxState U) (Unit {0})) (s : SaxState U) (mid rest : Bytes)
      (sc : SaxScope) (scopes : List SaxScope) (user : U)
      → Completes mid (sc ∷ scopes) (deliver cb es user) (m s)
      → ((u : U) → Completes rest scopes (deliver cb fs u) (k (state mid (sc ∷ scopes) u)))
      → Completes rest scopes (deliver cb (es ++ fs) user) ((or_else m pop_scope >> k) s)
  unfolding pop_scope
  then-Completes es fs m k s mid rest sc scopes user first next =
      rw (deliver-append cb es fs user) (go (deliver cb es user) first)
    where
      go :
          (o : Status × U)
          → Completes mid (sc ∷ scopes) o (m s)
          → Completes rest scopes (unless_aborted o (deliver cb fs)) ((or_else m pop_scope >> k) s)
      go (ok _, u) e = rw e (next u)
      go (err x, u) (p, e) = (p, rw e)

  pub open-Completes :
      (max_depth : ℕ) (is_dict : Bool) (ev : Event) (es : List Event)
      (loop : Exec (SaxState U) (Unit {0})) (cs rest : Bytes) (scopes : List SaxScope) (user : U)
      → max_depth ≤ internal_max_depth
      → suc (length scopes) ≤ max_depth
      → ((u : U)
          → Completes rest scopes
              (deliver cb es u)
              (loop (state cs (scope is_dict is_dict none ∷ scopes) u)))
      → Completes rest scopes (deliver cb (ev ∷ es) user) (
          (push_scope max_depth is_dict >> (or_else (notify cb ev) pop_scope >> loop))
            (state cs scopes user))
  unfolding push_scope
  open-Completes max_depth is_dict ev es loop cs rest scopes user fits room inside =
      let e : leb max_depth (length scopes) ≡ false = ground arith in
      let d : ltb (length scopes) internal_max_depth ≡ true = ground arith in
      rw (e, d)
        (then-Completes (ev ∷ []) es (notify cb ev) loop _ cs rest _ scopes user
          (notify-Completes ev cs _ user) inside)

  -- A key behind which a value is expected.
  pub accept_key-Completes :
      (key p : Bytes) (is_dict : Bool) (last : Option Bytes) (scopes : List SaxScope) (user : U)
      → KeyAfter last key
      → Completes p
          (scope is_dict false (some key) ∷ scopes)
          (deliver cb (on_string key ∷ []) user)
          (accept_key cb key (state p (scope is_dict true last ∷ scopes) user))
  unfolding accept_key
  accept_key-Completes key p is_dict last scopes user h =
      rw (check_order-ok last key h) (notify-Completes (on_string key) p _ user)

  -- What a round does at a byte that begins an item.
  pub list_round_item :
      (value loop : Exec (SaxState U) (Unit {0})) (c : ℕ) (cs : Bytes) (scopes : List SaxScope)
      (user : U)
      → c ≢ b'e'
      → list_round cb value loop (state (c ∷ cs) scopes user)
        ≡ (or_else value pop_scope >> loop) (state (c ∷ cs) scopes user)
  unfolding list_round
  list_round_item value loop c cs scopes user h = let e : (c == b'e') ≡ false = ground arith in rw e

  pub dict_round_item :
      (value loop : Exec (SaxState U) (Unit {0})) (c : ℕ) (cs : Bytes) (is_dict : Bool)
      (last : Option Bytes) (scopes : List SaxScope) (user : U)
      → c ≢ b'e'
      → (dict_round cb value loop (state (c ∷ cs) (scope is_dict true last ∷ scopes) user)
          ≡ (or_else (parse_dict_key cb) pop_scope >> loop)
              (state (c ∷ cs) (scope is_dict true last ∷ scopes) user))
        × (dict_round cb value loop (state (c ∷ cs) (scope is_dict false last ∷ scopes) user)
            ≡ (or_else value pop_scope >> (expect_key >> loop))
                (state (c ∷ cs) (scope is_dict false last ∷ scopes) user))
  unfolding dict_round
  dict_round_item value loop c cs is_dict last scopes user h =
      let e : (c == b'e') ≡ false = ground arith in (rw e, rw e)

  pub parse_dict_key_digit :
      (c : ℕ) (cs : Bytes) (scopes : List SaxScope) (user : U)
      → is_digit c ≡ true
      → parse_dict_key cb (state (c ∷ cs) scopes user)
        ≡ (parse_string >>= accept_key cb) (state (c ∷ cs) scopes user)
  unfolding parse_dict_key
  parse_dict_key_digit c cs scopes user h = rw h

  pub dispatch_digit :
      (max_depth : ℕ) (lists dicts : Exec (SaxState U) (Unit {0})) (c : ℕ) (cs : Bytes)
      (scopes : List SaxScope) (user : U)
      → is_digit c ≡ true
      → dispatch cb max_depth lists dicts (state (c ∷ cs) scopes user)
        ≡ (parse_string >>= λ bytes. notify cb (on_string bytes)) (state (c ∷ cs) scopes user)
  unfolding dispatch
  dispatch_digit max_depth lists dicts c cs scopes user h =
      let i : (c == b'i') ≡ false = ground arith in
      let l : (c == b'l') ≡ false = ground arith in
      let d : (c == b'd') ≡ false = ground arith in rw (i, l, d, h)
