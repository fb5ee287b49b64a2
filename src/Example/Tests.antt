-- ===== src/Example/Tests.antt =====
-- The example at a concrete platform, whose standard output keeps what is printed.
use bencode.Prelude.{refl, Bytes, Bool, true, false, none, [], ◌∷◌, ◌++◌}
use bencode.Exec.Ensures.{Ensures}
use bencode.Memory.Frees.{memory}
use bencode.Cli.{Platform, world}
use bencode.Example.{decode_main}
use bencode.Example.Shows.{Ends, decode_main-Ends}

-- A stream that is `true` is the standard output.
abbrev print_to : Bool → Bytes → Bytes → Bool × Bytes
print_to true bs s = (true, s ++ bs)
print_to false bs s = (true, s)

abbrev terminal : Platform Bool Bytes
terminal = record {
  malloc = λ _ _. true;
  stdin = false;
  stdout = true;
  stderr = false;
  fopen = λ _ s. (none, s);
  fclose = λ _ s. s;
  fread = λ _ _ s. ([], s);
  ferror = λ _ _. false;
  fputc = λ c out. print_to out (c ∷ []);
  fputs = λ bs out. print_to out bs;
  fprintf = print_to;
  puts = λ bs. print_to true (bs ++ b'\n' ∷ []);
  fflush = λ _ s. (true, s);
}

decode_main-Ends_example :
    Ensures
      (Ends terminal (λ s. s) (λ bs s. refl) (world (memory 0 3) []))
      (λ _ _. ⊥)
      (decode_main terminal (world (memory 0 3) []))
decode_main-Ends_example = decode_main-Ends terminal (λ s. s) (λ bs s. refl) (world (memory 0 3) [])
