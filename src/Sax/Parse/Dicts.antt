-- ===== src/Sax/Parse/Dicts.antt =====
-- The loop of `parse_dict`.
use bencode.Prelude.{
  ℕ, suc, ◌+◌, ◌*◌, ◌≤◌, ◌<◌, refl, ap, ◌∙◌, Bytes, Bool, true, false, Option, List, [], ◌∷◌, ◌++◌,
  length, ◌==◌, ==_iff, Bool-cases, inl, inr, arith, append_assoc, lengths,
}
use bencode.Prelude.Int.{pos}
use bencode.Grammar.{int, no_entries, entry, encode, events, events_entries, on_dict_end, on_string}
use bencode.Grammar.Spelling.{spelled}
use bencode.Grammar.Laws.{length-encode_pos, length-encode_bytes_pos}
use bencode.Exec.{Exec, ◌>>◌}
use bencode.Exec.Ensures
use bencode.Exec.Ensures.{Ensures, returns, raises}
use bencode.Sax.State.{SaxScope, SaxState, Callbacks, state, notify-Ensures}
use bencode.Sax.Parse.Scopes.{at_state, pop_keeps}
use bencode.Sax.Events.{
  deliver-cons, deliver_one, deliver_then, Breaks-none, Breaks-first, Breaks-next, Breaks-after,
  Breaks-within,
}
use bencode.Sax.Parse.{expect_key, dict_round}
use bencode.Sax.Parse.Spec.{ReadsDict, BreaksDict, BreaksTree, ValueLaw, DictLaw}
use bencode.Sax.Parse.Keys.{
  scope, AfterLast-end, AfterLast-entry, BreaksKey, parse_dict_key-Ensures,
}

module _ {U : Type 0} (cb : Option (Callbacks U)) (max_depth : ℕ) where
  -- Nothing was read, so the callbacks were called for the empty start of any entries.
  nothing_read :
      (is_dict expecting : Bool) (last : Option Bytes) (scopes : List SaxScope) (p : Bytes)
      (user : U)
      → suc (length scopes) ≤ max_depth
      → BreaksDict cb max_depth (scope is_dict expecting last) p scopes user (state p scopes user)
  nothing_read is_dict true last scopes p user deep = (
    refl,
    no_entries,
    (tt, AfterLast-end last),
    omega arith,
    Breaks-none cb p (events_entries no_entries) refl,
  )
  nothing_read is_dict false last scopes p user deep = (
    refl,
    int (pos 0),
    no_entries,
    (omega arith, tt, AfterLast-end last),
    (omega arith, omega arith),
    Breaks-none cb p (events (int (pos 0)) ++ events_entries no_entries) refl,
  )

  -- One round at a byte, by the kind of item that is expected.
  round_at :
      (fuel : ℕ) (value loop : Exec (SaxState U) (Unit {0}))
      → ValueLaw cb max_depth fuel value
      → DictLaw cb max_depth fuel loop
      → (c : ℕ) (cs : Bytes) (is_dict expecting : Bool) (last : Option Bytes)
        (scopes : List SaxScope) (user : U)
      → 2 * length (c ∷ cs) + 1 < suc fuel
      → suc (length scopes) ≤ max_depth
      → let sc = scope is_dict expecting last in
        Ensures
          (λ _ t. ReadsDict cb max_depth sc (c ∷ cs) scopes user t)
          (λ _ t. BreaksDict cb max_depth sc (c ∷ cs) scopes user t)
          (dict_round cb value loop (state (c ∷ cs) (sc ∷ scopes) user))
  unfolding dict_round encode events
  round_at fuel value loop vl dl c cs is_dict true last scopes user enough deep =
      elim (Bool-cases (c == b'e')) [
        | inl e ↦
            rw (e, (==_iff c b'e').0 e)
              (Ensures.mono (notify-Ensures cb on_dict_end (state cs scopes user))
                (λ _ t (read, same, fired). (
                  no_entries,
                  (tt, AfterLast-end last),
                  omega arith,
                  rw read,
                  same,
                  deliver_one cb on_dict_end user fired,
                ))
                (λ _ t (same, aborts). (
                  same,
                  no_entries,
                  (tt, AfterLast-end last),
                  omega arith,
                  Breaks-first cb on_dict_end [] user t.user cs refl aborts,
                )))
        | inr e ↦ rw e (
            Ensures.bind
              (Ensures.clean (parse_dict_key-Ensures cb c cs (scope is_dict true last) scopes user)
                (λ _ t ((_, inside), breaks).
                  pop_keeps (BreaksKey cb last (c ∷ cs) user) t inside breaks))
              (λ _ t (k, (sized, later), read, same, fired). at_state loop t same (
                Ensures.mono
                  (dl t.p _ scopes t.user
                    (omega (lengths, ap length read, length-encode_bytes_pos k)) deep)
                  (λ _ u (v, es, (cv, ces, after), (dv, des), rest, popped, more). (
                    entry k v es,
                    ((sized, after, cv, ces), AfterLast-entry last k v es later),
                    omega arith,
                    read ∙ simp (rest, append_assoc),
                    popped,
                    deliver-cons cb (on_string k) (events v ++ events_entries es) user fired ∙ more,
                  ))
                  (λ _ u (popped, v, es, (cv, ces, after), (dv, des), breaks). (
                    popped,
                    entry k v es,
                    ((sized, after, cv, ces), AfterLast-entry last k v es later),
                    omega arith,
                    Breaks-next cb (on_string k) (events v ++ events_entries es) user t.user t.p
                        read fired breaks,
                  ))))
              (λ _ t (popped, (es, good, flat, breaks)). (popped, es, good, omega arith, breaks)))
      ]
  round_at fuel value loop vl dl c cs is_dict false last scopes user enough deep =
      elim (Bool-cases (c == b'e')) [
        | inl e ↦ rw e (raises (nothing_read is_dict false last scopes (c ∷ cs) user deep))
        | inr e ↦ rw e (
            Ensures.bind
              (Ensures.clean
                (vl (c ∷ cs) (scope is_dict false last ∷ scopes) user (omega arith) deep)
                (λ _ t (inside, breaks).
                  pop_keeps (BreaksTree cb max_depth (suc (length scopes)) (c ∷ cs) user) t inside
                    breaks))
              (λ _ t (v, canonical, fits, read, same, sent). at_state (expect_key >> loop) t same (
                Ensures.mono
                  (dl t.p (scope is_dict true last) scopes t.user
                    (omega (lengths, ap length read, length-encode_pos v)) deep)
                  (λ _ u (es, (ces, after), des, rest, popped, more). (
                    v,
                    es,
                    (canonical, ces, after),
                    (fits, des),
                    read ∙ ap (λ r. encode v ++ r) rest,
                    popped,
                    deliver_then cb (events v) (events_entries es) user sent ∙ more,
                  ))
                  (λ _ u (popped, es, (ces, after), des, breaks). (
                    popped,
                    v,
                    es,
                    (canonical, ces, after),
                    (fits, des),
                    Breaks-after cb (events v) (events_entries es) user t.user t.p
                        (spelled v t.p read) sent breaks,
                  ))))
              (λ _ t (popped, (v, canonical, fit, breaks)). (
                popped,
                v,
                no_entries,
                (canonical, tt, AfterLast-end last),
                (fit, omega arith),
                Breaks-within cb (c ∷ cs) (events v) (events_entries no_entries) user t.user breaks,
              )))
      ]

  pub dict_round-law :
      (fuel : ℕ) (value loop : Exec (SaxState U) (Unit {0}))
      → ValueLaw cb max_depth fuel value
      → DictLaw cb max_depth fuel loop
      → DictLaw cb max_depth (suc fuel) (dict_round cb value loop)
  dict_round-law fuel value loop vl dl [] sc scopes user enough deep =
      unfold dict_round in
      raises (nothing_read sc.is_dict sc.expecting_key sc.last_key scopes [] user deep)
  dict_round-law fuel value loop vl dl (c ∷ cs) sc scopes user enough deep =
      round_at fuel value loop vl dl c cs sc.is_dict sc.expecting_key sc.last_key scopes user enough
        deep
