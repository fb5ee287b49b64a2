-- ===== src/Cli/Print/Rendered.antt =====
-- print_value prints the rendering of a value.
use bencode.Prelude.{
  ℕ, zero, suc, ◌<◌, ◌≡◌, refl, Bytes, false, Option, some, ◌++◌, ◌==◌, codes, arith,
}
use bencode.Exec.{Exec, ◌>>◌}
use bencode.Exec.Ensures.{Ensures}
use bencode.Grammar.{depth, depth_items, depth_entries}
use bencode.Value.{
  Value, Elements, Fields, int_value, string_value, list_value, dict_value, no_elements, element,
  no_fields, field, count_elements, count_fields, view, view_elements, view_fields,
}
use bencode.Decimal.{signed}
use bencode.Value.Access.{value_int, value_string, list_size, dict_size, list_at, dict_at}
use bencode.Value.Access.Rounds.{
  drop_elements, drop_fields, list_at-drop, dict_at-drop, drop_next_element, drop_next_field,
  count-drop_elements, count-drop_fields,
}
use bencode.Cli.{Platform, World, on_heap, for_each}
use bencode.Cli.Print.{
  print_separator, print_item, print_list, print_entry, print_dict, print_value,
}
use bencode.Cli.Print.Text.{
  quote, indent, item_end, entry_end, render, render_items, render_entries,
}
use bencode.Cli.Print.Prints.{
  Outputs, Prints, Prints-nothing, Prints-call, Prints-then, Prints-read, Wrote,
}
use bencode.Cli.Print.Strings.{
  print_string-Prints, print_indent-Prints, item_separator-Prints, entry_separator-Prints,
}

module _ {F S : Type 0} (os : Platform F S) (out : F) (contents : S → Bytes)
    (outputs : Outputs os out contents) (print : Option Value → ℕ → Exec (World S) (Unit {0}))
    (limit : ℕ)
    (prints : (v : Value) (level : ℕ)
      → depth (view v) < limit
      → Prints contents (render level (view v)) (print (some v) level)) where
  print_item-Prints :
      (all : Elements) (capacity level i : ℕ) (v : Value) (xs : Elements)
      → drop_elements i all ≡ element v xs
      → depth (view v) < limit
      → Prints contents
          (indent (suc level) ++ (render (suc level) (view v) ++ item_end (view_elements xs)))
          (print_item os out print (some (list_value all capacity)) (count_elements all) level i)
  unfolding print_item
  print_item-Prints all capacity level i v xs here shallow =
      Prints-then contents (print_indent-Prints os out contents outputs (suc level)) (
        Prints-read contents (on_heap (list_at (some (list_value all capacity)) i))
          (λ child. print child (suc level) >> print_separator os out i (count_elements all))
          (some v) (λ m s. rw (list_at-drop v xs i capacity all m here) refl)
          (Prints-then contents (prints v (suc level) shallow) (
            item_separator-Prints os out contents outputs i (count_elements all) xs
              (count-drop_elements v xs i all here))))

  print_items-Prints :
      (all : Elements) (capacity level i : ℕ) (xs : Elements)
      → drop_elements i all ≡ xs
      → depth_items (view_elements xs) < limit
      → Prints contents (render_items level (view_elements xs)) (
          for_each
            (count_elements xs)
            i
            (print_item os out print (some (list_value all capacity)) (count_elements all) level))
  unfolding view render
  print_items-Prints all capacity level i no_elements here shallow = Prints-nothing contents
  print_items-Prints all capacity level i (element v xs) here shallow =
      Prints-then contents
        (print_item-Prints all capacity level i v xs here (omega (arith, shallow)))
        (print_items-Prints all capacity level (suc i) xs (drop_next_element v xs i all here)
          (omega (arith, shallow)))

  print_entry-Prints :
      (all : Fields) (capacity level i : ℕ) (k : Bytes) (v : Value) (fs : Fields)
      → drop_fields i all ≡ field k v fs
      → depth (view v) < limit
      → Prints contents
          (indent (suc level)
            ++ (quote k
                ++ (codes ": " ++ (render (suc level) (view v) ++ entry_end (view_fields fs)))))
          (print_entry os out print (some (dict_value all capacity)) (count_fields all) level i)
  unfolding print_entry
  print_entry-Prints all capacity level i k v fs here shallow =
      Prints-read contents (on_heap (dict_at (some (dict_value all capacity)) i)) _ (k, v)
        (λ m s. rw (dict_at-drop k v fs i capacity all m here) refl)
        (Prints-then contents (print_indent-Prints os out contents outputs (suc level)) (
          Prints-then contents (print_string-Prints os out contents outputs k) (
            Prints-then contents (Prints-call contents (outputs.fputs (codes ": "))) (
              Prints-then contents (prints v (suc level) shallow) (
                entry_separator-Prints os out contents outputs i (count_fields all) fs
                  (count-drop_fields k v fs i all here))))))

  print_entries-Prints :
      (all : Fields) (capacity level i : ℕ) (fs : Fields)
      → drop_fields i all ≡ fs
      → depth_entries (view_fields fs) < limit
      → Prints contents (render_entries level (view_fields fs)) (
          for_each
            (count_fields fs)
            i
            (print_entry os out print (some (dict_value all capacity)) (count_fields all) level))
  unfolding view render
  print_entries-Prints all capacity level i no_fields here shallow = Prints-nothing contents
  print_entries-Prints all capacity level i (field k v fs) here shallow =
      Prints-then contents
        (print_entry-Prints all capacity level i k v fs here (omega (arith, shallow)))
        (print_entries-Prints all capacity level (suc i) fs (drop_next_field k v fs i all here)
          (omega (arith, shallow)))

  pub print_list-Prints :
      (xs : Elements) (capacity level : ℕ)
      → depth_items (view_elements xs) < limit
      → Prints contents
          (render level (view (list_value xs capacity)))
          (print_list os out print (some (list_value xs capacity)) level)
  unfolding print_list list_size view render
  print_list-Prints no_elements capacity level shallow =
      Prints-call contents (outputs.fputs (codes "[]"))
  print_list-Prints (element v xs) capacity level shallow =
      let filled : (suc (count_elements xs) == 0) ≡ false = ground arith in
      rw filled (
        Prints-then contents (Prints-call contents (outputs.fputs (codes "[\n"))) (
          Prints-then contents
            (print_items-Prints (element v xs) capacity level 0 (element v xs) refl shallow)
            (Prints-then contents (print_indent-Prints os out contents outputs level)
              (Prints-call contents (outputs.fputc b']')))))

  pub print_dict-Prints :
      (fs : Fields) (capacity level : ℕ)
      → depth_entries (view_fields fs) < limit
      → Prints contents
          (render level (view (dict_value fs capacity)))
          (print_dict os out print (some (dict_value fs capacity)) level)
  unfolding print_dict dict_size view render
  print_dict-Prints no_fields capacity level shallow =
      Prints-call contents (outputs.fputs (codes "{}"))
  print_dict-Prints (field k v fs) capacity level shallow =
      let filled : (suc (count_fields fs) == 0) ≡ false = ground arith in
      rw filled (
        Prints-then contents (Prints-call contents (outputs.fputs (codes "{\n"))) (
          Prints-then contents
            (print_entries-Prints (field k v fs) capacity level 0 (field k v fs) refl shallow)
            (Prints-then contents (print_indent-Prints os out contents outputs level)
              (Prints-call contents (outputs.fputc b'}')))))

module _ {F S : Type 0} (os : Platform F S) (out : F) (contents : S → Bytes)
    (outputs : Outputs os out contents) where
  pub print_value-Prints :
      (fuel : ℕ) (v : Value) (level : ℕ)
      → depth (view v) < fuel
      → Prints contents (render level (view v)) (print_value os out fuel (some v) level)
  unfolding print_value value_int value_string view render
  print_value-Prints zero v level enough = absurd (omega (arith, enough))
  print_value-Prints (suc f) (int_value i) level enough = record {
    prints = (Prints-call contents (outputs.fprintf (signed i))).prints;
  }
  print_value-Prints (suc f) (string_value bs owned) level enough = record {
    prints = (print_string-Prints os out contents outputs bs).prints;
  }
  print_value-Prints (suc f) (list_value xs capacity) level enough = record {
    prints =
        (print_list-Prints os out contents outputs (print_value os out f) f (print_value-Prints f)
          xs capacity level (omega (arith, enough))).prints;
  }
  print_value-Prints (suc f) (dict_value fs capacity) level enough = record {
    prints =
        (print_dict-Prints os out contents outputs (print_value os out f) f (print_value-Prints f)
          fs capacity level (omega (arith, enough))).prints;
  }

  -- With output calls that have appended their text when they report no error, print_value, with
  -- more fuel than the tree is deep, returns. It returns 0, and the output has grown by exactly
  -- the rendering of the tree's value; or it returns -1. The heap is as it was.
  pub print_value-Renders :
      (fuel : ℕ) (v : Value) (level : ℕ) (w : World S)
      → depth (view v) < fuel
      → Ensures
          (λ _ t. Wrote contents (render level (view v)) w.memory w.outside t)
          (λ _ t. t.memory ≡ w.memory)
          (print_value os out fuel (some v) level w)
  print_value-Renders fuel v level w enough =
      (print_value-Prints fuel v level enough).prints w.memory w.outside
