-- ===== src/Cli/Tests.antt =====
-- The command-line tool at concrete inputs.
use bencode.Prelude.{
  ℕ, ◌≡◌, refl, Bytes, Bool, true, false, Option, none, some, List, [], ◌∷◌, ◌++◌, codes, take,
  drop, length, if◌then◌else◌,
}
use bencode.Status.{ok, status_string}
use bencode.Exec.{Run, returned}
use bencode.Memory.Frees.{memory}
use bencode.Sax.Scan.{parse_unsigned, accumulate}
use bencode.Decimal.{signed, decimal}
use bencode.Cli.{Platform, World, world, read_all}
use bencode.Prelude.Text.{same_text}
use bencode.Cli.Commands.{report_parse, status_to_exit}
use bencode.Prelude.{zero, suc, ◌≤◌, ◌<◌, sym, append-nil, take-append-drop, arith}
use bencode.Prelude.Int.{size_max}
use bencode.Exec.{pure}
use bencode.Exec.Ensures.{Ensures}
use bencode.Grammar.{encode, encode_bytes, depth}
use bencode.Value.{view}
use bencode.Value.Tests.{sample_tree}
use bencode.Cli.{open_input}
use bencode.Cli.Reads.{Streams}
use bencode.Cli.Reads.Whole.{input_of, HasRead, read_all-Ensures}
use bencode.Cli.Print.{print_value, print_string}
use bencode.Cli.Print.Quotes.{Quoted, print_string-ReadsBack}
use bencode.Cli.Print.Text.{render}
use bencode.Cli.Print.Prints.{Outputs, Wrote}
use bencode.Cli.Print.Rendered.{print_value-Renders}
use bencode.Cli.Walk.{no_stats, walk}
use bencode.Cli.Walk.Census.{census}
use bencode.Cli.Walk.Exact.{walk-census}
use bencode.Cli.Compares.{Compared, roundtrip_loaded-Compares}
use bencode.Prelude.{◌+◌}
use bencode.Grammar.{IsCanonical}
use bencode.Value.{blocks}
use bencode.Cli.Commands.{loaded, roundtrip_loaded}
use bencode.Cli.Contract.{Contract, main-Contract}
use bencode.Cli.Main.{main}

-- One open file with what is left of it, and what was written.
record Desk : Type 0 where
  left : Bytes
  written : Bytes

abbrev put : Bytes → Desk → Bool × Desk
put bs d = (true, record d { written = d.written ++ bs })

abbrev desk_os : Platform (Unit {0}) Desk
desk_os = record {
  malloc = λ _ _. true;
  stdin = tt;
  stdout = tt;
  stderr = tt;
  fopen = λ path d. (if same_text path (codes "f") then some tt else none, d);
  fclose = λ _ d. d;
  fread = λ _ n d. (take n d.left, record d { left = drop n d.left });
  ferror = λ _ _. false;
  fputc = λ c _. put (c ∷ []);
  fputs = λ bs _. put bs;
  fprintf = λ _. put;
  puts = λ bs. put (bs ++ b'\n' ∷ []);
  fflush = λ _ d. (true, d);
}

abbrev desk : Bytes → World Desk
desk left = world (memory 0 7) (record { left = left; written = [] })

abbrev shown : Run (World Desk) ℕ → Option (ℕ × Bytes × ℕ)
shown (returned (ok rc) w) = some (rc, w.outside.written, w.memory.live)
shown _ = none

runs : Bytes → List Bytes → Option (ℕ × Bytes × ℕ)
unfolding main
runs input args = shown (main desk_os (codes "1.0") args (desk input))

print_run :
    runs (codes "d1:ai-5e1:bl2:x\"leee") (codes "bencode" ∷ codes "print" ∷ codes "f" ∷ [])
    ≡ some (0, codes "{\n  \"a\": -5,\n  \"b\": [\n    \"x\\\"\",\n    []\n  ]\n}\n", 7)
unfolding runs main parse_unsigned accumulate signed decimal
print_run = refl

validate_run :
    runs (codes "i-0e") (codes "bencode" ∷ codes "validate" ∷ codes "--" ∷ [])
    ≡ some
        (1, codes "bencode: malformed integer (leading zero, -0, or empty) at byte offset 3\n", 7)
unfolding runs main parse_unsigned accumulate decimal report_parse status_string status_to_exit
validate_run = refl

roundtrip_run :
    runs (codes "l0:i7ee") (codes "bencode" ∷ codes "roundtrip" ∷ codes "-" ∷ [])
    ≡ some (0, codes "ok\n", 7)
unfolding runs main parse_unsigned accumulate signed decimal
roundtrip_run = refl

size_run :
    runs (codes "d1:ai-5e1:bl2:xyleee") (codes "bencode" ∷ codes "size" ∷ codes "f" ∷ [])
    ≡ some (
      0,
      codes
          "input_bytes:        20\ntotal_values:       5\n  integers:         1\n  strings:          3\n  lists:            2\n  dicts:            1\nmax_depth_seen:     2\ntotal_string_bytes: 4\n",
      7,
    )
unfolding runs main parse_unsigned accumulate signed decimal
size_run = refl

missing_run :
    runs (codes "") (codes "bencode" ∷ codes "size" ∷ codes "g" ∷ [])
    ≡ some (2, codes "bencode: cannot read g\n", 7)
unfolding runs main parse_unsigned accumulate signed decimal
missing_run = refl

version_run :
    runs (codes "") (codes "bencode" ∷ codes "-V" ∷ []) ≡ some (0, codes "bencode 1.0\n", 7)
unfolding runs main parse_unsigned accumulate signed decimal
version_run = refl

length-take_le : (n : ℕ) (bs : Bytes) → length (take n bs) ≤ n
length-take_le zero bs = omega arith
length-take_le (suc n) [] = omega arith
length-take_le (suc n) (b ∷ bs) = omega (arith, length-take_le n bs)

drop_of_empty_take : (n : ℕ) (bs : Bytes) → 1 ≤ n → length (take n bs) ≡ 0 → drop n bs ≡ []
drop_of_empty_take zero bs positive e = absurd (omega (arith, positive))
drop_of_empty_take (suc n) [] positive e = refl
drop_of_empty_take (suc n) (b ∷ bs) positive e = absurd (omega (arith, e))

desk_streams : Streams desk_os (λ _ d. d.left) (λ d. d.written)
desk_streams = record {
  fits = λ _ n d. length-take_le n d.left;
  split = λ _ n d. sym (take-append-drop n d.left);
  ends = λ _ n d positive e _. drop_of_empty_take n d.left positive e;
  fopen_quiet = λ _ _. refl;
  fread_quiet = λ _ _ _. refl;
  fclose_quiet = λ _ _. refl;
}

desk_outputs : Outputs desk_os tt (λ d. d.written)
desk_outputs = record {
  fputc = λ _ _ _. refl;
  fputs = λ _ _ _. refl;
  fprintf = λ _ _ _. refl;
  puts = λ _ _ _. refl;
  fflush = λ d _. sym (append-nil d.written);
}

abbrev arguments : List Bytes
arguments = codes "bencode" ∷ codes "print" ∷ codes "--" ∷ codes "f" ∷ []

main-Contract_example :
    Ensures
      (Contract desk_os
        (λ _ d. d.left)
        (λ d. d.written)
        desk_streams
        desk_outputs
        (codes "1.0")
        arguments
        (desk (codes "li7ee")))
      (λ _ _. ⊥)
      (main desk_os (codes "1.0") arguments (desk (codes "li7ee")))
main-Contract_example =
    main-Contract desk_os (λ _ d. d.left) (λ d. d.written) desk_streams desk_outputs (codes "1.0")
      arguments (desk (codes "li7ee"))

sample_tree-IsCanonical : IsCanonical (view sample_tree)
unfolding view
sample_tree-IsCanonical = omega arith

-- A desk beside the sample tree, a buffer and five other blocks.
abbrev held : World Desk
held = world (memory 0 (suc (blocks sample_tree + 5))) (record { left = []; written = [] })

roundtrip_loaded-Compares_example :
    Ensures
      (Compared desk_os
        (codes "bencode")
        (λ d. d.written)
        desk_outputs
        5
        sample_tree
        (codes "0:")
        [])
      (λ _ _. ⊥)
      (roundtrip_loaded desk_os (codes "bencode") (loaded (codes "0:") (some sample_tree)) held)
roundtrip_loaded-Compares_example =
    roundtrip_loaded-Compares desk_os (codes "bencode") (λ d. d.written) desk_outputs 5 sample_tree
      (codes "0:") held sample_tree-IsCanonical refl

read_all-Ensures_example :
    Ensures
      (HasRead
        (λ d. d.written)
        (input_of
          (λ _ d. d.left)
          (open_input desk_os (some (codes "f")) (desk (codes "0:")).outside))
        7
        [])
      (λ _ t. t.memory.live ≡ 7)
      (read_all desk_os (some (codes "f")) (desk (codes "0:")))
read_all-Ensures_example =
    read_all-Ensures desk_os (λ _ d. d.left) (λ d. d.written) desk_streams (some (codes "f"))
      (desk (codes "0:"))

sample_tree_shallow : depth (view sample_tree) < 4
unfolding view
sample_tree_shallow = omega arith

sample_tree_sized : length (encode (view sample_tree)) ≤ size_max
unfolding view encode decimal signed encode_bytes
sample_tree_sized = omega arith

print_value-Renders_example :
    Ensures
      (λ _ t. Wrote (λ d. d.written) (render 1 (view sample_tree)) (memory 0 7) (desk []).outside t)
      (λ _ t. t.memory ≡ memory 0 7)
      (print_value desk_os tt 4 (some sample_tree) 1 (desk []))
print_value-Renders_example =
    print_value-Renders desk_os tt (λ d. d.written) desk_outputs 4 sample_tree 1 (desk [])
      sample_tree_shallow

walk-census_example :
    walk 4 (some sample_tree) 0 (world (memory 0 7) no_stats)
    ≡ pure tt (world (memory 0 7) (census 0 (view sample_tree)))
walk-census_example = walk-census 4 sample_tree (memory 0 7) sample_tree_shallow sample_tree_sized

print_string-ReadsBack_example :
    Ensures
      (λ _ t. Quoted desk_os tt (λ d. d.written) desk_outputs (codes "a\"\n") (desk []) t)
      (λ _ t. t.memory ≡ memory 0 7)
      (print_string desk_os tt (codes "a\"\n") (desk []))
print_string-ReadsBack_example =
    print_string-ReadsBack desk_os tt (λ d. d.written) desk_outputs (codes "a\"\n") (desk [])
      (omega arith)
