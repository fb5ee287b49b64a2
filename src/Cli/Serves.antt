-- ===== src/Cli/Serves.antt =====
-- The subcommands: what exit code 0 says, and that nothing is left on the heap.
use bencode.Prelude.{
  ◌≤◌, ◌≡◌, sym, ap, refl, subst, Bytes, Option, some, [], ◌∷◌, ◌++◌, arith, codes, length,
}
use bencode.Prelude.Int.{size_max}
use bencode.Grammar.{Tree, encode, depth}
use bencode.Exec.{pure, ◌>>◌}
use bencode.Exec.Ensures.{Ensures}
use bencode.Memory.{Memory}
use bencode.Value.{Value, view}
use bencode.Sax.Parse.{effective_depth}
use bencode.Sax.Parse.Entry.{effective_depth-le}
use bencode.Cli.{Platform, World, world, call, open_input}
use bencode.Cli.Reads.{Streams}
use bencode.Cli.Reads.Whole.{input_of}
use bencode.Cli.Print.{print_value}
use bencode.Cli.Print.Text.{render}
use bencode.Cli.Print.Prints.{Outputs, Prints, Prints-call, Prints-then}
use bencode.Cli.Print.Rendered.{print_value-Prints}
use bencode.Cli.Walk.Census.{census}
use bencode.Cli.Walk.Exact.{walk-census}
use bencode.Cli.Commands.{
  loaded, nesting_fuel, validate_loaded, print_loaded, size_loaded, size_report, walk_tree,
  cmd_validate, cmd_print, cmd_size,
}
use bencode.Cli.Loads.{Holds}
use bencode.Cli.Exits.{Serves, show_and_free-Ensures, command-Ensures}

abbrev pub ok_line : Tree → Bytes
ok_line v = codes "ok\n"

abbrev pub rendered_line : Tree → Bytes
rendered_line v = render 0 v ++ b'\n' ∷ []

module _ {F S : Type 0} (os : Platform F S) (left : F → S → Bytes) (contents : S → Bytes)
    (streams : Streams os left contents) (outputs : Outputs os os.stdout contents)
    (prog : Bytes) where
  ok-Prints : Prints contents (codes "ok\n") (call (os.puts (codes "ok")))
  ok-Prints = Prints-call contents (outputs.puts (codes "ok"))

  -- `bencode validate`, whatever the input: it returns 0, 1 or 2 and leaves nothing on the heap. It
  -- returns 0 only if the whole input is the canonical encoding of a value within the default
  -- depth, and the output has grown by "ok\n".
  pub cmd_validate-Serves :
      (path : Option Bytes) (w : World S)
      → Ensures
          (Serves os left contents streams prog ok_line path w)
          (λ _ _. ⊥)
          (cmd_validate os prog path w)
  unfolding cmd_validate
  cmd_validate-Serves path w =
      command-Ensures os left contents streams prog ok_line path w (validate_loaded os prog)
        (λ rc t. refl)
        (λ buf value t held.
          show_and_free-Ensures os prog contents ok_line w.memory.live
            (input_of left (open_input os path w.outside)) (contents w.outside) buf
            (call (os.puts (codes "ok"))) value t held ok-Prints)

  print-Prints :
      (tree : Value)
      → depth (view tree) ≤ effective_depth 0
      → Prints contents (rendered_line (view tree)) (
          print_value os os.stdout nesting_fuel (some tree) 0
          >> (call (os.fputc b'\n' os.stdout) >> call (os.fflush os.stdout)))
  print-Prints tree shallow =
      Prints-then contents
        (print_value-Prints os os.stdout contents outputs nesting_fuel tree 0
          (omega (arith, shallow, effective_depth-le 0)))
        (Prints-then contents (Prints-call contents (outputs.fputc b'\n'))
          (Prints-call contents outputs.fflush))

  -- `bencode print`, likewise, with the rendering of the value and a newline for output.
  pub cmd_print-Serves :
      (path : Option Bytes) (w : World S)
      → Ensures
          (Serves os left contents streams prog rendered_line path w)
          (λ _ _. ⊥)
          (cmd_print os prog path w)
  unfolding cmd_print
  cmd_print-Serves path w =
      command-Ensures os left contents streams prog rendered_line path w (print_loaded os prog)
        (λ rc t. refl)
        (λ buf value t held.
          show_and_free-Ensures os prog contents rendered_line w.memory.live
            (input_of left (open_input os path w.outside)) (contents w.outside) buf _ value t held
            (subst
              (λ v. Prints contents (rendered_line (view held.tree)) (
                print_value os os.stdout nesting_fuel v 0
                >> (call (os.fputc b'\n' os.stdout) >> call (os.fflush os.stdout))))
              (sym held.result) (print-Prints held.tree held.shallow)))

  -- What `bencode size` prints for an input that encodes the value.
  abbrev pub size_line : Tree → Bytes
  size_line v = size_report os prog (length (encode v)) (census 0 v)

  walk_tree-census :
      (tree : Value) (m : Memory) (s : S)
      → depth (view tree) ≤ effective_depth 0
      → length (encode (view tree)) ≤ size_max
      → walk_tree os prog (some tree) (world m s) ≡ pure (census 0 (view tree)) (world m s)
  unfolding walk_tree
  walk_tree-census tree m s shallow sized =
      rw (walk-census nesting_fuel tree m (omega (arith, shallow, effective_depth-le 0)) sized) refl

  size-Serves :
      (path : Option Bytes) (w : World S) (buf : Bytes) (value : Option Value) (t : World S)
      → Holds contents w.memory.live
          (input_of left (open_input os path w.outside))
          (contents w.outside)
          buf
          value
          t
      → Ensures
          (Serves os left contents streams prog size_line path w)
          (λ _ _. ⊥)
          (size_loaded os prog (loaded buf value) t)
  size-Serves path w buf value t held =
      let tallied : walk_tree os prog value t ≡ pure (census 0 (view held.tree)) t =
        subst (λ v. walk_tree os prog v t ≡ pure (census 0 (view held.tree)) t) (sym held.result)
          (walk_tree-census held.tree t.memory t.outside held.shallow
            (subst (λ b. length b ≤ size_max) held.whole held.sized)) in
      rw tallied (
        show_and_free-Ensures os prog contents size_line w.memory.live
          (input_of left (open_input os path w.outside)) (contents w.outside) buf _ value t held
          (subst
            (λ n.
              Prints contents (size_line (view held.tree))
                (call (os.fprintf os.stdout (size_report os prog n (census 0 (view held.tree))))))
            (sym (ap length held.whole)) (Prints-call contents (outputs.fprintf _))))

  -- `bencode size`, likewise, with the length of the input and the census of the value for output.
  pub cmd_size-Serves :
      (path : Option Bytes) (w : World S)
      → Ensures
          (Serves os left contents streams prog size_line path w)
          (λ _ _. ⊥)
          (cmd_size os prog path w)
  unfolding cmd_size
  cmd_size-Serves path w =
      command-Ensures os left contents streams prog size_line path w (size_loaded os prog)
        (λ rc t. refl) (size-Serves path w)
