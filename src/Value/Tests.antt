-- ===== src/Value/Tests.antt =====
-- The value tree at concrete inputs.
use bencode.Prelude.{false, ◌≡◌, ◌+◌, true, [], codes}
use bencode.Prelude.Int.{negsuc}
use bencode.Exec.{pure}
use bencode.Memory.Frees.{memory}
use bencode.Prelude.{ltb}
use bencode.Memory.{double_while, growth_fuel}
use bencode.Memory.Growth.{Grown, Unchanged, double_while-Ensures}
use bencode.Value.{
  Value, int_value, string_value, list_value, dict_value, no_elements, element, no_fields, field,
  blocks,
}
use bencode.Value.Build.{value_free}
use bencode.Value.Free.{value_free-Frees}
use bencode.Prelude.{none, some, arith, refl}
use bencode.Exec.Ensures.{Ensures}
use bencode.Prelude.{List, ◌∷◌}
use bencode.Prelude.Int.{pos}
use bencode.Status.{nomem}
use bencode.Value.Build.{int_new, list_new}
use bencode.Value.Access.Types
use bencode.Value.Access.Types.{value_type-Reads}
use bencode.Value.Map.{find}
use bencode.Value.Map.Client.{Request, put, get, Refines, run, replay, offered, run-Refines}
use bencode.Value.Reach.{IsWell}
use bencode.Value.Reach.Trees.{Reachable, list_made, int_made, list_appended, Reachable-IsWell}
use bencode.Memory.{Heap}
use bencode.Value.{Fields}
use bencode.Value.Build.{list_append}
use bencode.Value.Build.Growth.{Kept}
use bencode.Value.Build.Append.{Appended, list_append-Ensures}
use bencode.Value.Dict.{dict_search, dict_set}
use bencode.Value.Dict.Search.{IsOrdered, Searches, dict_search-Finds}
use bencode.Value.Dict.Set.{Updated, dict_set-Ensures}
use bencode.Memory.{allocator_check}
use bencode.Grammar.{IsCanonical}
use bencode.Value.{view}
use bencode.Value.Clone.{clone}
use bencode.Value.Clone.Parts.{Cloned, Gone}
use bencode.Value.Clone.Exact.{clone-Cloned}
use bencode.Value.Access.{dict_get}
use bencode.Value.Access.Get.{Answers, dict_get-Answers, GetsChild, dict_get-dict_set}

-- {"": "moo", "spam": [-12]}
abbrev pub sample_tree : Value
sample_tree =
    dict_value
      (field [] (string_value (codes "moo") true) (
        field (codes "spam") (list_value (element (int_value (negsuc 11)) no_elements) 4)
          no_fields))
      4

value_free-Frees_example :
    value_free sample_tree (memory 9 (blocks sample_tree + 2)) ≡ pure tt (memory 9 2)
value_free-Frees_example = value_free-Frees sample_tree 9 2

-- The platform's `malloc`, which grants everything.
abbrev heap : Heap
heap = record { malloc = λ _ _. true; allocator = none }

abbrev moo : Value
moo = string_value (codes "moo") true

-- Its entries have one cell to spare.
abbrev fields : Fields
fields = field (codes "cow") (int_value (negsuc 0)) (field (codes "spam") moo no_fields)

fields-IsOrdered : IsOrdered fields
fields-IsOrdered = omega arith

dict_search-Finds_example :
    Searches fields (codes "dog") (memory 0 0) (dict_search fields (codes "dog") (memory 0 0))
dict_search-Finds_example =
    dict_search-Finds fields (codes "dog") (memory 0 0) fields-IsOrdered (omega arith)

dict_set-Ensures_example :
    Ensures
      (Updated fields (codes "dog") moo 5)
      (Kept (memory 3 14))
      (dict_set heap (some (dict_value fields 3)) (some (codes "dog")) 3 (some moo) (memory 3 14))
dict_set-Ensures_example =
    dict_set-Ensures fields (codes "dog") moo 5 heap 3 (memory 3 14) 3 fields-IsOrdered
      (omega arith) (omega arith) (unfold blocks in refl)

dict_get-dict_set_example :
    Ensures
      (GetsChild heap fields 3 (codes "cow") moo 5)
      (Kept (memory 3 14))
      (dict_set heap (some (dict_value fields 3)) (some (codes "cow")) 3 (some moo) (memory 3 14))
dict_get-dict_set_example =
    dict_get-dict_set heap fields 3 (codes "cow") moo 5 (memory 3 14) 3 fields-IsOrdered
      (omega arith) (omega arith) (unfold blocks in refl)

list_append-Ensures_example :
    Ensures
      (Appended (element moo no_elements) moo 5)
      (Kept (memory 3 11))
      (list_append heap (some (list_value (element moo no_elements) 1)) (some moo) (memory 3 11))
list_append-Ensures_example =
    list_append-Ensures heap (element moo no_elements) 1 moo 5 (memory 3 11) (omega arith)
      (unfold blocks in refl)

dict_get-Answers_example :
    Ensures
      (λ o t. Answers fields (codes "dog") o × (t ≡ memory 0 0))
      (λ _ _. ⊥)
      (dict_get (some (dict_value fields 3)) (some (codes "dog")) 3 (memory 0 0))
dict_get-Answers_example =
    dict_get-Answers fields 3 (codes "dog") (memory 0 0) 3 fields-IsOrdered (omega arith)

-- The string of the tree is borrowed.
abbrev borrowing : Value
borrowing = list_value (element (string_value (codes "moo") false) no_elements) 4

borrowing-IsCanonical : IsCanonical (view borrowing)
unfolding view
borrowing-IsCanonical = omega arith

clone-Cloned_example :
    Ensures
      (λ o n. (w : Value) × (o ≡ some w) × Cloned borrowing 7 w n)
      (Gone 7)
      (clone heap true (some borrowing) (memory 2 7))
clone-Cloned_example =
    clone-Cloned heap (unfold allocator_check in refl) borrowing (memory 2 7) borrowing-IsCanonical

-- The platform's `malloc`, which grants everything.
abbrev pub granting : Heap
granting = record { malloc = λ _ _. true; allocator = none }

abbrev seven : Value
seven = int_value (pos 7)

abbrev pub sevens : Value
sevens = list_value (element seven no_elements) 4

pub sevens-Reachable : Reachable granting sevens
unfolding list_new int_new list_append view blocks
sevens-Reachable =
    list_appended (list_value no_elements 0) seven (memory 2 2) (memory 3 3) 0
      (list_made (memory 0 0) (memory 1 1) refl)
      (int_made (pos 7) (memory 1 1) (memory 2 2) (omega arith) refl) refl refl

Reachable-IsWell_example : IsWell sevens
Reachable-IsWell_example = Reachable-IsWell granting sevens sevens-Reachable

abbrev requests : List Request
requests = put (codes "b") seven ∷ get (codes "a") ∷ put (codes "a") sevens ∷ get (codes "a") ∷ []

requests_live : 5 ≡ blocks (dict_value no_fields 0) + (offered requests + 0)
unfolding blocks
requests_live = refl

run-Refines_example :
    Ensures
      (Refines (replay requests (find no_fields)) 0)
      (λ e _. e ≡ nomem)
      (run granting requests (dict_value no_fields 0) (memory 0 5))
run-Refines_example =
    run-Refines granting 0 requests no_fields 0 (memory 0 5)
      (record { ordered = tt; room = omega arith; sized = omega arith }) requests_live

value_type-Reads_example : Types.Reads (some sevens) (memory 0 3) (Types.view_of (some sevens))
value_type-Reads_example = value_type-Reads (some sevens) (memory 0 3)

double_while-Ensures_example :
    Ensures
      (Grown (λ c. ltb c 70) tt 4)
      (Unchanged (λ c. ltb c 70) tt)
      (double_while {S = Unit {0}} (λ c. ltb c 70) growth_fuel 4 tt)
double_while-Ensures_example = double_while-Ensures (λ c. ltb c 70) tt 4 (omega arith) (omega arith)
