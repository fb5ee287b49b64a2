-- ===== src/Sax/Parse/Lists.antt =====
-- The loop of `parse_list`.
use bencode.Prelude.{
  ℕ, suc, refl, sym, ap, ◌∙◌, Option, [], ◌∷◌, ◌++◌, length, ◌==◌, ==_iff, Bool-cases, inl, inr,
  arith, append_assoc, lengths,
}
use bencode.Grammar.{no_items, item, encode, encode_items, events, events_items, on_list_end}
use bencode.Grammar.Spelling.{spelled}
use bencode.Grammar.Laws.{length-encode_pos}
use bencode.Exec.{Exec}
use bencode.Exec.Ensures
use bencode.Exec.Ensures.{Ensures, returns, raises}
use bencode.Sax.State.{SaxState, Callbacks, state, notify-Ensures}
use bencode.Sax.Parse.Scopes.{at_state, pop_keeps}
use bencode.Sax.Events.{
  deliver_one, deliver_then, Breaks-none, Breaks-first, Breaks-after, Breaks-within,
}
use bencode.Sax.Parse.{list_round}
use bencode.Sax.Parse.Spec.{BreaksTree, ValueLaw, ListLaw}

module _ {U : Type 0} (cb : Option (Callbacks U)) (max_depth : ℕ) where
  pub list_round-law :
      (fuel : ℕ) (value loop : Exec (SaxState U) (Unit {0}))
      → ValueLaw cb max_depth fuel value
      → ListLaw cb max_depth fuel loop
      → ListLaw cb max_depth (suc fuel) (list_round cb value loop)
  unfolding list_round encode events
  list_round-law fuel value loop vl ll [] sc scopes user enough deep =
      raises (refl, no_items, tt, omega arith, Breaks-none cb [] (events_items no_items) refl)
  list_round-law fuel value loop vl ll (c ∷ cs) sc scopes user enough deep =
      elim (Bool-cases (c == b'e')) [
        | inl e ↦
            rw (e, (==_iff c b'e').0 e)
              (Ensures.mono (notify-Ensures cb on_list_end (state cs scopes user))
                (λ _ t (read, same, fired).
                  (no_items, tt, omega arith, rw read, same, deliver_one cb on_list_end user fired))
                (λ _ t (same, aborts). (
                  same,
                  no_items,
                  tt,
                  omega arith,
                  Breaks-first cb on_list_end [] user t.user cs refl aborts,
                )))
        | inr e ↦ rw e (
            Ensures.bind
              (Ensures.clean (vl (c ∷ cs) (sc ∷ scopes) user (omega arith) deep)
                (λ _ t (inside, breaks).
                  pop_keeps (BreaksTree cb max_depth (suc (length scopes)) (c ∷ cs) user) t inside
                    breaks))
              (λ _ t (v, canonical, fits, read, same, sent). at_state loop t same (
                Ensures.mono
                  (ll t.p sc scopes t.user (omega (lengths, ap length read, length-encode_pos v))
                    deep)
                  (λ _ u (xs, canonicals, fit, rest, popped, more). (
                    item v xs,
                    (canonical, canonicals),
                    omega arith,
                    read
                        ∙ (ap (λ r. encode v ++ r) rest
                            ∙ sym (append_assoc (encode v) (encode_items xs) u.p)),
                    popped,
                    deliver_then cb (events v) (events_items xs) user sent ∙ more,
                  ))
                  (λ _ u (popped, xs, canonicals, fit, breaks). (
                    popped,
                    item v xs,
                    (canonical, canonicals),
                    omega arith,
                    Breaks-after cb (events v) (events_items xs) user t.user t.p
                        (spelled v t.p read) sent breaks,
                  ))))
              (λ _ t (popped, (v, canonical, fit, breaks)). (
                popped,
                item v no_items,
                (canonical, tt),
                omega arith,
                Breaks-within cb (c ∷ cs) (events v) (events_items no_items) user t.user breaks,
              )))
      ]
