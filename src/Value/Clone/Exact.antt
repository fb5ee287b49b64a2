-- ===== src/Value/Clone/Exact.antt =====
-- A clone represents the same value and borrows nothing; a clone that fails leaves nothing behind.
use bencode.Prelude.{ℕ, ◌+◌, ◌≡◌, ◌≤◌, ◌∙◌, ap, refl, true, some, length, arith}
use bencode.Prelude.Int.{ℤ, size_max}
use bencode.Status.{ok}
use bencode.Grammar.{list, dict, item, entry, IsCanonical, IsCanonicalItems, IsCanonicalEntries}
use bencode.Exec.{pure, or_else, ◌>>=◌, ◌>>◌}
use bencode.Exec.Ensures
use bencode.Exec.Ensures.{Ensures, returns, raises}
use bencode.Memory.{Memory, Heap, allocator_check}
use bencode.Value.{
  Value, Elements, Fields, int_value, string_value, list_value, dict_value, no_elements, element,
  no_fields, field, count_fields, blocks, view, view_elements, view_fields,
}
use bencode.Value.Build.{
  value_free, check_out, int_new, list_new, dict_new, list_append, push_element,
}
use bencode.Value.Build.Growth.{Kept}
use bencode.Value.Build.Nodes.{Made, checked_Ensures}
use bencode.Value.Build.Append.{list_append-Ensures}
use bencode.Value.Dict.{dict_set}
use bencode.Value.Dict.Search.{IsOrdered}
use bencode.Value.Dict.Set.{dict_set-Ensures}
use bencode.Value.Last.{
  push_field, Edit-last, join, join_fields, join-no_items, join-push_element, join-no_entries,
  join-push_field, push_field-IsOrdered, Follows, start_Follows, Follows-push_field,
}
use bencode.Value.Clone.{clone_value, clone_elements, clone_fields, clone}
use bencode.Value.Clone.Detached.{
  IsDetached, IsDetachedElements, IsDetachedFields, IsDetachedElements-push_element,
  IsDetachedFields-push_field,
}
use bencode.Value.Clone.Parts.{Cloned, Gone, string_Ensures, drop_one, drop_two}

module _ (h : Heap) (valid : allocator_check h ≡ ok tt) where
  check_passes : (m : Memory) → check_out h true m ≡ pure tt m
  unfolding check_out
  check_passes m = rw valid refl

  int_Ensures :
      (i : ℤ) (m : Memory)
      → Ensures (Cloned (int_value i) m.live) (Gone m.live) (int_new h true i m)
  unfolding int_new blocks
  int_Ensures i m =
      Ensures.mono (checked_Ensures h (int_value i) m valid)
        (λ w n (e, live). rw e (refl, tt, omega (arith, live))) (λ _ _ k. k)

  list_new-Ensures :
      (m : Memory) → Ensures (Made (list_value no_elements 0) m) (Kept m) (list_new h true m)
  unfolding list_new
  list_new-Ensures m = checked_Ensures h (list_value no_elements 0) m valid

  dict_new-Ensures :
      (m : Memory) → Ensures (Made (dict_value no_fields 0) m) (Kept m) (dict_new h true m)
  unfolding dict_new
  dict_new-Ensures m = checked_Ensures h (dict_value no_fields 0) m valid

  mutual
    unfolding clone_value view blocks

    clone_exact :
        (v : Value) (m : Memory)
        → IsCanonical (view v)
        → Ensures (Cloned v m.live) (Gone m.live) (clone_value h v m)
    clone_exact (int_value i) m canonical = rw (check_passes m) (int_Ensures i m)
    clone_exact (string_value bs owned) m canonical =
        rw (check_passes m) (string_Ensures h bs owned m valid)
    clone_exact (list_value xs c) m canonical = rw (check_passes m) (
        Ensures.bind {k = clone_elements h xs} (list_new-Ensures m)
          (λ w n (e, live). rw e (
            elements_exact xs no_elements 0 m.live n canonical tt (omega arith)
              (omega (arith, live))))
          (λ _ _ k. k))
    clone_exact (dict_value fs c) m canonical = rw (check_passes m) (
        Ensures.bind {k = clone_fields h fs} (dict_new-Ensures m)
          (λ w n (e, live). rw e (
            fields_exact fs no_fields 0 m.live n canonical tt tt (start_Follows (view_fields fs))
              (omega arith) (omega arith) (omega (arith, live))))
          (λ _ _ k. k))

    elements_exact :
        (xs ys : Elements) (c others : ℕ) (m : Memory)
        → IsCanonicalItems (view_elements xs)
        → IsDetachedElements ys
        → c ≤ size_max
        → m.live ≡ blocks (list_value ys c) + others
        → Ensures
            (λ w n.
              (view w ≡ list (join ys (view_elements xs)))
              × IsDetached w
              × (n.live ≡ blocks w + others))
            (Gone others)
            (clone_elements h xs (list_value ys c) m)
    elements_exact no_elements ys c others m canonical detached small owns =
        returns (ap list (join-no_items ys), detached, owns)
    elements_exact (element v xs) ys c others m (cv, cxs) detached small owns =
        Ensures.bind
          {k = λ child.
            or_else (list_append h (some (list_value ys c)) (some child))
              (value_free child >> value_free (list_value ys c))
            >>= clone_elements h xs}
          (Ensures.clean {c = value_free (list_value ys c)} (clone_exact v m cv)
            (λ e u k. drop_one (list_value ys c) others m e u owns k))
          (λ child n (same, d, live).
            let owned : n.live ≡ blocks (list_value ys c) + (blocks child + others) =
              omega (arith, live, owns) in
            Ensures.bind {k = clone_elements h xs}
              (Ensures.clean {c = value_free child >> value_free (list_value ys c)}
                (list_append-Ensures h ys c child others n small owned)
                (λ e u k. drop_two child (list_value ys c) others n e u owned k))
              (λ after u a. rw a.same (
                Ensures.mono
                  (elements_exact xs (push_element ys child) a.new_cap others u cxs
                    (IsDetachedElements-push_element ys child detached d) a.sized
                    (a.owns ∙ ap (λ x. blocks x + others) a.same))
                  (λ w z (e, dw, live'). (
                    e
                        ∙ ap list (
                            join-push_element ys child (view_elements xs)
                            ∙ ap (λ t. join ys (item t (view_elements xs))) same),
                    dw,
                    live',
                  ))
                  (λ _ _ g. g)))
              (λ _ _ g. g))
          (λ _ _ g. g)

    fields_exact :
        (fs gs : Fields) (c others : ℕ) (m : Memory)
        → IsCanonicalEntries (view_fields fs)
        → IsDetachedFields gs
        → IsOrdered gs
        → Follows gs (view_fields fs)
        → count_fields gs ≤ c
        → c ≤ size_max
        → m.live ≡ blocks (dict_value gs c) + others
        → Ensures
            (λ w n.
              (view w ≡ dict (join_fields gs (view_fields fs)))
              × IsDetached w
              × (n.live ≡ blocks w + others))
            (Gone others)
            (clone_fields h fs (dict_value gs c) m)
    fields_exact no_fields gs c others m canonical detached ordered follows room small owns =
        returns (ap dict (join-no_entries gs), detached, owns)
    fields_exact (field k v fs) gs c others m (_, after_k, cv, cfs) detached ordered last room small
          owns =
        Ensures.bind
          {k = λ child.
            or_else (dict_set h (some (dict_value gs c)) (some k) (length k) (some child))
              (value_free child >> value_free (dict_value gs c))
            >>= clone_fields h fs}
          (Ensures.clean {c = value_free (dict_value gs c)} (clone_exact v m cv)
            (λ e u g. drop_one (dict_value gs c) others m e u owns g))
          (λ child n (same, d, live).
            let owned : n.live ≡ blocks (dict_value gs c) + (blocks child + others) =
              omega (arith, live, owns) in
            Ensures.bind {k = clone_fields h fs}
              (Ensures.clean {c = value_free child >> value_free (dict_value gs c)}
                (dict_set-Ensures gs k child others h c n (length k) ordered room small owned)
                (λ e u g. drop_two child (dict_value gs c) others n e u owned g))
              (λ after u a.
                let pushed = Edit-last gs k child others a.fields last a.edit in
                let x : after ≡ dict_value (push_field k child gs) a.new_cap =
                  a.same ∙ ap (λ g. dict_value g a.new_cap) pushed in
                rw x (
                  Ensures.mono
                    (fields_exact fs (push_field k child gs) a.new_cap others u cfs
                      (IsDetachedFields-push_field gs k child detached d)
                      (push_field-IsOrdered gs k child ordered last)
                      (Follows-push_field gs k child (view_fields fs) last after_k)
                      (omega (arith, a.room, ap count_fields pushed)) a.sized
                      (a.owns ∙ ap (λ y. blocks y + others) x))
                    (λ w z (e, dw, live'). (
                      e
                          ∙ ap dict (
                              join-push_field gs k child (view_fields fs)
                              ∙ ap (λ t. join_fields gs (entry k t (view_fields fs))) same),
                      dw,
                      live',
                    ))
                    (λ _ _ g. g)))
              (λ _ _ g. g))
          (λ _ _ g. g)

  -- For a tree whose value the format can represent, bencode_value_clone returns. It returns a
  -- tree with the same value that borrows no bytes, with exactly its blocks live in addition; or
  -- BENCODE_ERR_NOMEM, with no block live in addition.
  pub clone-Cloned :
      (v : Value) (m : Memory)
      → IsCanonical (view v)
      → Ensures
          (λ o n. (w : Value) × (o ≡ some w) × Cloned v m.live w n)
          (Gone m.live)
          (clone h true (some v) m)
  unfolding clone
  clone-Cloned v m canonical =
      Ensures.bind {k = λ w. pure (some w)} (clone_exact v m canonical)
        (λ w n c. returns (w, refl, c)) (λ _ _ g. g)
