-- ===== src/Sax/Parse/Sound.antt =====
-- `parse_value` reads canonical encodings only: soundness, with termination and memory safety.
use bencode.Prelude.{
  ℕ, zero, suc, ◌*◌, ◌≤◌, ◌<◌, ◌≡◌, refl, sym, subst, ◌∙◌, Bytes, Bool, true, false, Option, none,
  List, [], ◌∷◌, length, ◌==◌, ==_iff, leb, Bool-cases, inl, inr, ap, arith, append_assoc, lt→ltb,
}
use bencode.Prelude.Int.{pos}
use bencode.Decimal.{signed}
use bencode.Status.{ok}
use bencode.Grammar.{
  int, str, list, dict, no_items, no_entries, events_items, events_entries, encode, events, Event,
  on_int, on_string, on_list_begin, on_dict_begin,
}
use bencode.Exec.{Exec, or_else, ◌>>◌}
use bencode.Exec.Ensures
use bencode.Exec.Ensures.{Ensures, returns, raises}
use bencode.Sax.State.{
  SaxScope, SaxState, Callbacks, state, fire, Aborts, push_scope, pop_scope, notify, notify-Ensures,
  internal_max_depth,
}
use bencode.Sax.Events.{deliver-cons, deliver_one, Breaks, Breaks-none, Breaks-first, Breaks-next}
use bencode.Sax.Scan.{is_digit}
use bencode.Sax.Scan.Accepts.{parse_string-Ensures}
use bencode.Sax.Scan.Ints.{QuietOrAborted, parse_int-Ensures}
use bencode.Sax.Parse.{dispatch, parse_value, list_loop, dict_loop}
use bencode.Sax.Parse.Scopes.{pop_keeps}
use bencode.Sax.Parse.Spec.{ReadsValue, BreaksValue, BreaksTree, ValueLaw, ListLaw, DictLaw}
use bencode.Sax.Parse.Lists.{list_round-law}
use bencode.Sax.Parse.Dicts.{dict_round-law}

module _ {U : Type 0} (cb : Option (Callbacks U)) (max_depth : ℕ)
    (fits : max_depth ≤ internal_max_depth) where
  -- Entering a container: the limit, the scope and the first callback.
  open-Ensures :
      {Q : SaxState U → Type 0} (B : U → Type 0) (is_dict : Bool) (ev : Event)
      (loop : Exec (SaxState U) (Unit {0})) (cs : Bytes) (scopes : List SaxScope) (user : U)
      → let sc : SaxScope = record {
        is_dict = is_dict;
        expecting_key = is_dict;
        last_key = none;
      } in
        B user
        → ((u : U) → Aborts cb ev user u → suc (length scopes) ≤ max_depth → B u)
        → ((u : U)
            → fire cb ev user ≡ (ok tt, u)
            → suc (length scopes) ≤ max_depth
            → Ensures
                (λ _ t. Q t)
                (λ _ t. (t.scopes ≡ scopes) × B t.user)
                (loop (state cs (sc ∷ scopes) u)))
        → Ensures
            (λ _ t. Q t)
            (λ _ t. (t.scopes ≡ scopes) × B t.user)
            ((push_scope max_depth is_dict >> (or_else (notify cb ev) pop_scope >> loop))
              (state cs scopes user))
  unfolding push_scope
  open-Ensures {Q} B is_dict ev loop cs scopes user before aborted inside =
      elim (Bool-cases (leb max_depth (length scopes))) [
        | inl deep ↦ rw deep (raises (refl, before))
        | inr room ↦
            rw (room, lt→ltb (length scopes) internal_max_depth (ground arith))
              (Ensures.bind
                (Ensures.clean
                  (notify-Ensures cb ev (
                    state cs
                      (record { is_dict = is_dict; expecting_key = is_dict; last_key = none }
                        ∷ scopes)
                      user))
                  (λ _ t (same, aborts). pop_keeps B t same (aborted t.user aborts (ground arith))))
                (λ _ t (read, same, fired).
                  let e : t
                      ≡ state cs
                          (record { is_dict = is_dict; expecting_key = is_dict; last_key = none }
                            ∷ scopes)
                          t.user =
                    λ i. record { p = read i; scopes = same i; user = t.user } in
                  subst (λ z. Ensures (λ _ t. Q t) (λ _ t. (t.scopes ≡ scopes) × B t.user) (loop z))
                    (sym e) (inside t.user fired (ground arith)))
                (λ _ _ popped. popped))
      ]

  unread :
      (p : Bytes) (scopes : List SaxScope) (user u : U)
      → u ≡ user
      → length scopes ≤ max_depth
      → BreaksTree cb max_depth (length scopes) p user u
  unread p scopes user u same deep =
      (int (pos 0), omega arith, omega arith, Breaks-none cb p (events (int (pos 0))) same)

  int_breaks :
      (cs : Bytes) (scopes : List SaxScope) (user u : U)
      → length scopes ≤ max_depth
      → QuietOrAborted cb cs user u
      → BreaksTree cb max_depth (length scopes) (b'i' ∷ cs) user u
  unfolding events
  int_breaks cs scopes user u deep (inl quiet) = unread (b'i' ∷ cs) scopes user u quiet deep
  int_breaks cs scopes user u deep (inr (i, rest, range, read, aborts)) = (
    int i,
    range,
    omega arith,
    Breaks-first cb (on_int i) [] user u rest
        (ap (λ x. b'i' ∷ x) (read ∙ sym (append_assoc (signed i) (b'e' ∷ []) rest))) aborts,
  )

  dispatch-law :
      (fuel : ℕ) (lists dicts : Exec (SaxState U) (Unit {0}))
      → ListLaw cb max_depth fuel lists
      → DictLaw cb max_depth fuel dicts
      → ValueLaw cb max_depth (suc fuel) (dispatch cb max_depth lists dicts)
  unfolding dispatch encode events
  dispatch-law fuel lists dicts ll dl [] scopes user enough deep =
      raises (refl, unread [] scopes user user refl deep)
  dispatch-law fuel lists dicts ll dl (c ∷ cs) scopes user enough deep =
      elim (Bool-cases (c == b'i')) [
        | inl e ↦
            rw (e, (==_iff c b'i').0 e)
              (Ensures.mono (parse_int-Ensures cb cs scopes user)
                (λ _ t (i, range, read, same, fired). (
                  int i,
                  range,
                  omega arith,
                  simp (read, append_assoc),
                  same,
                  deliver_one cb (on_int i) user fired,
                ))
                (λ _ t (same, why). (same, int_breaks cs scopes user t.user deep why)))
        | inr not_int ↦ rw not_int (elim (Bool-cases (c == b'l')) [
          | inl e ↦
              rw (e, (==_iff c b'l').0 e)
                (open-Ensures (BreaksTree cb max_depth (length scopes) (b'l' ∷ cs) user) false
                  on_list_begin lists cs scopes user (unread (b'l' ∷ cs) scopes user user refl deep)
                  (λ u aborts room. (
                    list no_items,
                    tt,
                    omega arith,
                    Breaks-first cb on_list_begin (events_items no_items) user u cs refl aborts,
                  ))
                  (λ u fired room.
                    Ensures.mono (ll cs _ scopes u (omega arith) room)
                      (λ _ t (xs, canonical, fit, read, same, sent). (
                        list xs,
                        canonical,
                        omega arith,
                        rw read,
                        same,
                        deliver-cons cb on_list_begin _ user fired ∙ sent,
                      ))
                      (λ _ t (same, xs, canonical, fit, breaks). (
                        same,
                        (
                          list xs,
                          canonical,
                          omega arith,
                          Breaks-next cb on_list_begin (events_items xs) user u cs refl fired
                              breaks,
                        ),
                      ))))
          | inr not_list ↦ rw not_list (elim (Bool-cases (c == b'd')) [
            | inl e ↦
                rw (e, (==_iff c b'd').0 e)
                  (open-Ensures (BreaksTree cb max_depth (length scopes) (b'd' ∷ cs) user) true
                    on_dict_begin dicts cs scopes user
                    (unread (b'd' ∷ cs) scopes user user refl deep)
                    (λ u aborts room. (
                      dict no_entries,
                      tt,
                      omega arith,
                      Breaks-first cb on_dict_begin (events_entries no_entries) user u cs refl
                          aborts,
                    ))
                    (λ u fired room.
                      Ensures.mono (dl cs _ scopes u (omega arith) room)
                        (λ _ t (es, (canonical, _), fit, read, same, sent). (
                          dict es,
                          canonical,
                          omega arith,
                          rw read,
                          same,
                          deliver-cons cb on_dict_begin _ user fired ∙ sent,
                        ))
                        (λ _ t (same, es, (canonical, _), fit, breaks). (
                          same,
                          (
                            dict es,
                            canonical,
                            omega arith,
                            Breaks-next cb on_dict_begin (events_entries es) user u cs refl fired
                                breaks,
                          ),
                        ))))
            | inr not_dict ↦ rw not_dict (elim (Bool-cases (is_digit c)) [
              | inl digit ↦ rw digit (
                  Ensures.bind (parse_string-Ensures (state (c ∷ cs) scopes user))
                    (λ bs t (read, sized, kept).
                      Ensures.mono (notify-Ensures cb (on_string bs) t)
                        (λ _ u (same_p, same, fired). (
                          str bs,
                          sized,
                          omega arith,
                          rw (read, same_p),
                          same ∙ kept.scopes_kept,
                          deliver_one cb (on_string bs) user (rw (← kept.user_kept) fired),
                        ))
                        (λ _ u (same, aborts). (
                          same ∙ kept.scopes_kept,
                          (
                            str bs,
                            sized,
                            omega arith,
                            subst (λ x. Breaks cb (c ∷ cs) (on_string bs ∷ []) x u.user)
                                kept.user_kept
                                (Breaks-first cb (on_string bs) [] t.user u.user t.p read aborts),
                          ),
                        )))
                    (λ _ t kept.
                      (kept.scopes_kept, unread (c ∷ cs) scopes user t.user kept.user_kept deep)))
              | inr other ↦ rw other (raises (refl, unread (c ∷ cs) scopes user user refl deep))
            ])
          ])
        ])
      ]

  mutual
    unfolding parse_value

    parse_value-law : (fuel : ℕ) → ValueLaw cb max_depth fuel (parse_value cb max_depth fuel)
    parse_value-law zero p scopes user enough deep = absurd (omega arith)
    parse_value-law (suc f) p scopes user enough deep =
        dispatch-law f (list_loop cb max_depth f) (dict_loop cb max_depth f) (list_loop-law f)
          (dict_loop-law f) p scopes user enough deep

    list_loop-law : (fuel : ℕ) → ListLaw cb max_depth fuel (list_loop cb max_depth fuel)
    list_loop-law zero p sc scopes user enough deep = absurd (omega arith)
    list_loop-law (suc f) p sc scopes user enough deep =
        list_round-law cb max_depth f (parse_value cb max_depth f) (list_loop cb max_depth f)
          (parse_value-law f) (list_loop-law f) p sc scopes user enough deep

    dict_loop-law : (fuel : ℕ) → DictLaw cb max_depth fuel (dict_loop cb max_depth fuel)
    dict_loop-law zero p sc scopes user enough deep = absurd (omega arith)
    dict_loop-law (suc f) p sc scopes user enough deep =
        dict_round-law cb max_depth f (parse_value cb max_depth f) (dict_loop cb max_depth f)
          (parse_value-law f) (dict_loop-law f) p sc scopes user enough deep

  pub parse_value_sound :
      (fuel : ℕ) (p : Bytes) (scopes : List SaxScope) (user : U)
      → 2 * length p < fuel
      → length scopes ≤ max_depth
      → Ensures
          (λ _ t. ReadsValue cb max_depth p scopes user t)
          (λ _ t. BreaksValue cb max_depth p scopes user t)
          (parse_value cb max_depth fuel (state p scopes user))
  parse_value_sound fuel = parse_value-law fuel
