-- ===== src/Sax/Parse/Keys.antt =====
-- `parse_dict_key`: the keys that a dictionary accepts, and their order.
use bencode.Prelude.{
  ℕ, ◌≡◌, refl, subst, Bytes, Bool, false, Option, none, some, List, [], ◌∷◌, ◌++◌, Bool-cases, inl,
  inr, arith,
}
use bencode.Status.{ok, err, Status}
use bencode.Prelude.Int.{pos}
use bencode.KeyOrder.{Before, Compares, bytes_cmp, Ordering}
use bencode.KeyOrder.Laws.{bytes_cmp-Compares}
use bencode.Grammar.{
  Tree, int, IsCanonicalEntries, depth_entries, on_int, Entries, no_entries, entry, encode_bytes,
  IsSized, events, events_entries, on_dict_end, on_string,
}
use bencode.Exec.{lift}
use bencode.Exec.Ensures
use bencode.Exec.Ensures.{Ensures, returns, raises}
use bencode.Sax.State.{SaxScope, SaxState, Callbacks, state, fire, Aborts, notify-Ensures}
use bencode.Sax.Scan.{is_digit}
use bencode.Sax.Scan.Accepts.{parse_string-Ensures}
use bencode.Sax.Parse.Scopes.{at_state}
use bencode.Sax.Events.{Breaks, Breaks-none, Breaks-first}
use bencode.Sax.Parse.{check_order, accept_key, order_error, parse_dict_key}
use bencode.Sax.Parse.Spec.{AfterLast}

abbrev pub KeyAfter : Option Bytes → Bytes → Type 0
KeyAfter none key = Unit
KeyAfter (some last) key = Before last key

check_order-KeyAfter :
    (last : Option Bytes) (key : Bytes) → check_order last key ≡ ok tt → KeyAfter last key
unfolding check_order
check_order-KeyAfter none key h = tt
check_order-KeyAfter (some last) key h = go (bytes_cmp last key) (bytes_cmp-Compares last key) h
  where
    go : (o : Ordering) → Compares last key o → order_error o ≡ ok tt → Before last key
    go Ordering.lt c e = c
    go Ordering.eq c e = cc
    go Ordering.gt c e = cc

pub AfterLast-end : (last : Option Bytes) → AfterLast last no_entries
AfterLast-end none = tt
AfterLast-end (some k) = tt

pub AfterLast-entry :
    (last : Option Bytes) (k : Bytes) (v : Tree) (es : Entries)
    → KeyAfter last k
    → AfterLast last (entry k v es)
AfterLast-entry none k v es h = tt
AfterLast-entry (some l) k v es h = h

abbrev pub scope : Bool → Bool → Option Bytes → SaxScope
scope is_dict expecting last = record {
  is_dict = is_dict;
  expecting_key = expecting;
  last_key = last;
}

module _ {U : Type 0} (cb : Option (Callbacks U)) where
  abbrev ReadsKey : Bytes → SaxScope → List SaxScope → U → SaxState U → Type 0
  ReadsKey p sc scopes user t =
      (k : Bytes) × (IsSized k × KeyAfter sc.last_key k)
      × (p ≡ encode_bytes k ++ t.p)
      × (t.scopes ≡ record sc { last_key = some k; expecting_key = false } ∷ scopes)
      × (fire cb (on_string k) user ≡ (ok tt, t.user))

  abbrev Inside : List SaxScope → SaxState U → Type 0
  Inside scopes t = (sc : SaxScope) × (t.scopes ≡ sc ∷ scopes)

  -- The callback of a key was not called, or aborted.
  abbrev pub BreaksKey : Option Bytes → Bytes → U → U → Type 0
  BreaksKey last p user u =
      (es : Entries) × (IsCanonicalEntries es × AfterLast last es)
      × (depth_entries es ≡ 0)
      × Breaks cb p (events_entries es) user u

  no_key : (last : Option Bytes) (p : Bytes) {user u : U} → u ≡ user → BreaksKey last p user u
  no_key last p e =
      (no_entries, (tt, AfterLast-end last), refl, Breaks-none cb p (events_entries no_entries) e)

  aborted_key :
      (last : Option Bytes) (k : Bytes) (user u : U) {p : Bytes} (rest : Bytes)
      → p ≡ encode_bytes k ++ rest
      → IsSized k
      → KeyAfter last k
      → Aborts cb (on_string k) user u
      → BreaksKey last p user u
  unfolding events
  aborted_key last k user u rest read sized later aborts = (
    entry k (int (pos 0)) no_entries,
    ((sized, tt, omega arith, tt), AfterLast-entry last k (int (pos 0)) no_entries later),
    omega arith,
    Breaks-first cb (on_string k) (on_int (pos 0) ∷ on_dict_end ∷ []) user u rest read aborts,
  )

  accept_key-Ensures :
      (k : Bytes) (sc : SaxScope) (scopes : List SaxScope) (input p : Bytes) (user : U)
      → input ≡ encode_bytes k ++ p
      → IsSized k
      → Ensures
          (λ _ t.
            KeyAfter sc.last_key k
            × (t.p ≡ p)
            × (t.scopes ≡ record sc { last_key = some k; expecting_key = false } ∷ scopes)
            × (fire cb (on_string k) user ≡ (ok tt, t.user)))
          (λ _ t. Inside scopes t × BreaksKey sc.last_key input user t.user)
          (accept_key cb k (state p (sc ∷ scopes) user))
  unfolding accept_key
  accept_key-Ensures k sc scopes input p user read sized =
      Ensures.bind {P = λ _ t. KeyAfter sc.last_key k × (t ≡ state p (sc ∷ scopes) user)}
        {E = λ _ t. Inside scopes t × BreaksKey sc.last_key input user t.user}
        (go (check_order sc.last_key k) (check_order-KeyAfter sc.last_key k))
        (λ _ t (later, e). rw e (
          Ensures.mono (notify-Ensures cb (on_string k) _)
            (λ _ t (stays, same, fired). (later, stays, same, fired))
            (λ _ t (same, aborts).
              ((_, same), aborted_key sc.last_key k user t.user p read sized later aborts))))
        (λ _ _ inside. inside)
    where
      go :
          (o : Status)
          → (o ≡ ok tt → KeyAfter sc.last_key k)
          → Ensures
              (λ _ t. KeyAfter sc.last_key k × (t ≡ state p (sc ∷ scopes) user))
              (λ _ t. Inside scopes t × BreaksKey sc.last_key input user t.user)
              (lift o (state p (sc ∷ scopes) user))
      go (err e) h = raises ((sc, refl), no_key sc.last_key input refl)
      go (ok _) h = returns (h refl, refl)

  pub parse_dict_key-Ensures :
      (c : ℕ) (cs : Bytes) (sc : SaxScope) (scopes : List SaxScope) (user : U)
      → Ensures
          (λ _ t. ReadsKey (c ∷ cs) sc scopes user t)
          (λ _ t. Inside scopes t × BreaksKey sc.last_key (c ∷ cs) user t.user)
          (parse_dict_key cb (state (c ∷ cs) (sc ∷ scopes) user))
  unfolding parse_dict_key
  parse_dict_key-Ensures c cs sc scopes user = elim (Bool-cases (is_digit c)) [
    | inr other ↦ rw other (raises ((sc, refl), no_key sc.last_key (c ∷ cs) refl))
    | inl digit ↦ rw digit (
        Ensures.bind (parse_string-Ensures (state (c ∷ cs) (sc ∷ scopes) user))
          (λ k t (read, sized, kept). at_state (accept_key cb k) t kept.scopes_kept (
            Ensures.mono (accept_key-Ensures k sc scopes (c ∷ cs) t.p t.user read sized)
              (λ _ u (later, same, scopes_set, fired).
                (k, (sized, later), rw (read, same), scopes_set, rw (← kept.user_kept) fired))
              (λ _ u (inside, breaks). (
                inside,
                subst (λ x. BreaksKey sc.last_key (c ∷ cs) x u.user) kept.user_kept breaks,
              ))))
          (λ _ _ kept. ((sc, kept.scopes_kept), no_key sc.last_key (c ∷ cs) kept.user_kept)))
  ]
