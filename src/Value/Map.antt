-- ===== src/Value/Map.antt =====
-- A dictionary as a finite map: for any sequence of bencode_dict_set and bencode_dict_get, what the
-- lookups return is what a function from keys to values returns that is changed at one key at a
-- time.
pub mod Client
use mathlib.Core.Path.{fun_ext}
use mathlib.Core.Option.{some-injective}
use bencode.Prelude.{
  ℕ, zero, suc, ◌+◌, ◌≤◌, ◌≡◌, ◌≢◌, ◌∙◌, refl, sym, ap, subst, inl, inr, Bytes, Bool, true, false,
  Option, none, some, List, [], ◌∷◌, length, Bool-cases, Option-cases, if◌then◌else◌, arith,
}
use bencode.Prelude.Text.{same_text, same_text_refl, same_text-eq}
use bencode.Prelude.Int.{size_max}
use bencode.Status.{nomem}
use bencode.Exec.{Exec, pure, ◌>>=◌}
use bencode.Exec.Ensures
use bencode.Exec.Ensures.{Ensures, returns}
use bencode.Memory.{Memory, Heap}
use bencode.Value.{Value, Fields, dict_value, no_fields, field, count_fields, blocks}
use bencode.Value.Dict.{dict_set}
use bencode.Value.Dict.Search.{IsOrdered}
use bencode.Value.Dict.Edits.{Has}
use bencode.Value.Dict.Set.{Updated, dict_set-Ensures}
use bencode.Value.Access.{dict_get}
use bencode.Value.Access.Get.{Answers, Answers-some, Has-unique, dict_get-Answers}

-- The map of a dictionary.
unfoldable pub find : Fields → Bytes → Option Value
find no_fields q = none
find (field k v fs) q = if same_text q k then some v else find fs q

-- The map changed at one key.
unfoldable pub update : (Bytes → Option Value) → Bytes → Value → Bytes → Option Value
update f k v q = if same_text q k then some v else f q

some-none : (v : Value) → some v ≡ none → ⊥
some-none v e = cc

pub different : (q k : Bytes) → q ≡ k → same_text q k ≡ false → ⊥
different q k e other = true_false (sym (rw e (same_text_refl k)) ∙ other)
  where
    true_false : true ≡ false → ⊥
    true_false x = cc

pub find-Has : (fs : Fields) (q : Bytes) (v : Value) → find fs q ≡ some v → Has fs q v
unfolding find
find-Has no_fields q v e = cc
find-Has (field k w fs) q v e = elim (Bool-cases (same_text q k)) [
  | inl same ↦ inl (sym (same_text-eq q k same), some-injective w v (rw same at e))
  | inr other ↦ inr (find-Has fs q v (rw other at e))
]

pub find_missing : (fs : Fields) (q : Bytes) (v : Value) → find fs q ≡ none → Has fs q v → ⊥
unfolding find
find_missing no_fields q v e h = h
find_missing (field k w fs) q v e (inl (same, _)) = some-none w (rw (← same, same_text_refl k) at e)
find_missing (field k w fs) q v e (inr h) = elim (Bool-cases (same_text q k)) [
  | inl same ↦ absurd (some-none w (rw same at e))
  | inr other ↦ find_missing fs q v (rw other at e) h
]

-- A lookup of a key that the dictionary maps to `v`.
Has-find : (fs : Fields) (q : Bytes) (v : Value) → IsOrdered fs → Has fs q v → find fs q ≡ some v
Has-find fs q v ordered h = elim (Option-cases (find fs q)) [
  | inl e ↦ absurd (find_missing fs q v e h)
  | inr (w, e) ↦ e ∙ ap some (Has-unique fs q w v ordered (find-Has fs q w e) h)
]

pub Answers-find :
    (fs : Fields) (q : Bytes) (o : Option Value) → IsOrdered fs → Answers fs q o → o ≡ find fs q
Answers-find fs q (some v) ordered a = sym (Has-find fs q v ordered a)
Answers-find fs q none ordered a = elim (Option-cases (find fs q)) [
  | inl e ↦ sym e
  | inr (w, e) ↦ absurd (a w (find-Has fs q w e))
]

module _ (fs : Fields) (key : Bytes) (child : Value) (others : ℕ) where
  -- What bencode_dict_set makes of the map.
  pub find-update :
      (after : Value) (t : Memory) (u : Updated fs key child others after t)
      → IsOrdered fs
      → find u.fields ≡ update (find fs) key child
  unfolding update
  find-update after t u ordered = fun_ext λ q. elim (Bool-cases (same_text q key)) [
    | inl same ↦
        rw (same, same_text-eq q key same) (Has-find u.fields key child u.ordered u.update.maps)
    | inr other ↦
        let differs : q ≢ key = λ e. different q key e other in
        rw other (elim (Option-cases (find fs q)) [
          | inl e ↦ elim (Option-cases (find u.fields q)) [
            | inl f ↦ f ∙ sym e
            | inr (w, f) ↦
                absurd
                  (find_missing fs q w e ((u.update.keeps q w differs).0 (find-Has u.fields q w f)))
          ]
          | inr (w, e) ↦
              Has-find u.fields q w u.ordered ((u.update.keeps q w differs).1 (find-Has fs q w e))
              ∙ sym e
        ])
  ]
