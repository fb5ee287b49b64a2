-- ===== src/Cli/Commands.antt =====
-- src/main.c: the subcommands and their dispatch.
use bencode.Prelude.{
  ℕ, Bytes, Bool, true, ◌||◌, ◌&&◌, Option, none, some, ◌++◌, ◌==◌, if◌then◌else◌, length, codes,
}
use bencode.Status.{Error, Result, ok, err, io, status_string}
use bencode.Decimal.{decimal}
use bencode.Exec.{Run, returned, out_of_bounds, out_of_fuel, Exec, pure, ◌>>=◌, ◌>>◌}
use bencode.Memory.{Memory, free}
use bencode.Value.{Value}
use bencode.Value.Build.{free_pointer}
use bencode.Sax.Parse.{bytes}
use bencode.Emit.Alloc.{emit_to_alloc}
use bencode.Dom.Callbacks.{default_options, parse}
use bencode.Cli.{Platform, World, world, call, call_void, on_heap, attempt, libc, read_all}
use bencode.Prelude.Text.{same_text}
use bencode.Cli.Print.{print_value}
use bencode.Cli.Walk.{Stats, no_stats, walk}

-- A code other than that of BENCODE_OK.
unfoldable pub status_to_exit : Error → ℕ
status_to_exit io = 2
status_to_exit _ = 1

-- bencode_parse nests no deeper than 256 containers, and a leaf is one call more.
abbrev pub nesting_fuel : ℕ
nesting_fuel = 257

abbrev pub input_name : Option Bytes → Bytes
input_name none = codes "<stdin>"
input_name (some path) = if same_text path (codes "-") then codes "<stdin>" else path

-- What load gives: the exit code, or the buffer and the tree.
pub data Loaded : Type 0 where
  refused : ℕ → Loaded
  loaded : Bytes → Option Value → Loaded

abbrev pub equal_bytes : Bytes → Bytes → Bool
equal_bytes = same_text

-- An output that fails ends in exit code 2.
abbrev pub exit_code : Result (Unit {0}) → ℕ
exit_code (ok _) = 0
exit_code (err _) = 2

module _ {F S : Type 0} (os : Platform F S) (prog : Bytes) where
  abbrev pub diagnose : Bytes → Exec (World S) (Unit {0})
  diagnose text = call_void (os.fprintf os.stderr (prog ++ (codes ": " ++ text)))

  abbrev pub report_read : Option Bytes → Exec (World S) Loaded
  report_read path =
      diagnose (codes "cannot read " ++ (input_name path ++ codes "\n")) >> pure (refused 2)

  unfoldable pub report_parse : Error → ℕ → Exec (World S) Loaded
  unfolding status_string decimal
  report_parse e consumed = do
    diagnose (
        codes (status_string (err e))
        ++ (codes " at byte offset " ++ (decimal consumed ++ codes "\n")))
    on_heap free
    pure (refused (status_to_exit e))

  abbrev pub conclude_load : Bytes → S → Run (Memory × ℕ) (Option Value) → Run (World S) Loaded
  conclude_load buf s (returned (ok value) (m, _)) = returned (ok (loaded buf value)) (world m s)
  conclude_load buf s (returned (err e) (m, consumed)) = report_parse e consumed (world m s)
  conclude_load buf s out_of_bounds = out_of_bounds
  conclude_load buf s out_of_fuel = out_of_fuel

  abbrev pub parse_input : Option Bytes → Result Bytes → Exec (World S) Loaded
  parse_input path (err _) w = report_read path w
  parse_input path (ok buf) w =
      conclude_load buf w.outside (parse (libc os) true (bytes buf) default_options w.memory)

  unfoldable pub load : Option Bytes → Exec (World S) Loaded
  unfolding read_all parse free status_to_exit report_parse
  load path = attempt (read_all os path) >>= parse_input path

  -- bencode_value_free(value); free(buf);
  unfoldable pub free_loaded : Option Value → Exec (World S) (Unit {0})
  unfolding free_pointer free
  free_loaded value = on_heap (free_pointer value) >> on_heap free

  -- The part of a command behind load: an output that may fail, and the release.
  abbrev pub show_and_free : Exec (World S) (Unit {0}) → Option Value → Exec (World S) ℕ
  show_and_free show value = do rc ← attempt show; free_loaded value; pure (exit_code rc)

  abbrev pub validate_loaded : Loaded → Exec (World S) ℕ
  validate_loaded (refused rc) = pure rc
  validate_loaded (loaded buf value) = show_and_free (call (os.puts (codes "ok"))) value

  unfoldable pub cmd_validate : Option Bytes → Exec (World S) ℕ
  unfolding load free_loaded
  cmd_validate path = load path >>= validate_loaded

  abbrev pub print_loaded : Loaded → Exec (World S) ℕ
  print_loaded (refused rc) = pure rc
  print_loaded (loaded buf value) =
      show_and_free
        (do
          print_value os os.stdout nesting_fuel value 0
          call (os.fputc b'\n' os.stdout)
          call (os.fflush os.stdout))
        value

  unfoldable pub cmd_print : Option Bytes → Exec (World S) ℕ
  unfolding load print_value free_loaded
  cmd_print path = load path >>= print_loaded

  abbrev pub report_emit : Error → Option Value → Exec (World S) ℕ
  report_emit e value = do
    diagnose (codes "emit failed: " ++ (codes (status_string (err e)) ++ codes "\n"))
    free_loaded value
    pure (status_to_exit e)

  abbrev pub report_mismatch : ℕ → ℕ → Exec (World S) ℕ
  report_mismatch size emitted_len =
      diagnose (
        codes "roundtrip mismatch: input "
        ++ (decimal size ++ (codes " bytes, output " ++ (decimal emitted_len ++ codes " bytes\n"))))
      >> pure 1

  abbrev pub compare_emitted : Bytes → Option Value → Result Bytes → Exec (World S) ℕ
  compare_emitted buf value (err e) = report_emit e value
  compare_emitted buf value (ok emitted) = do
    rc ←
        if (length emitted == length buf) && ((length buf == 0) || equal_bytes emitted buf)
        then (attempt (call (os.puts (codes "ok"))) >>= λ r. pure (exit_code r))
        else report_mismatch (length buf) (length emitted)
    on_heap free
    free_loaded value
    pure rc

  abbrev pub roundtrip_loaded : Loaded → Exec (World S) ℕ
  roundtrip_loaded (refused rc) = pure rc
  roundtrip_loaded (loaded buf value) =
      attempt (on_heap (emit_to_alloc (libc os) true value)) >>= compare_emitted buf value

  unfoldable pub cmd_roundtrip : Option Bytes → Exec (World S) ℕ
  unfolding load emit_to_alloc free_loaded
  cmd_roundtrip path = load path >>= roundtrip_loaded

  -- The text that printf is asked for.
  unfoldable pub size_report : ℕ → Stats → Bytes
  unfolding decimal
  size_report size st =
      codes "input_bytes:        "
      ++ (decimal size
          ++ (codes "\ntotal_values:       "
              ++ (decimal st.total_values
                  ++ (codes "\n  integers:         "
                      ++ (decimal st.ints
                          ++ (codes "\n  strings:          "
                              ++ (decimal st.strings
                                  ++ (codes "\n  lists:            "
                                      ++ (decimal st.lists
                                          ++ (codes "\n  dicts:            "
                                              ++ (decimal st.dicts
                                                  ++ (codes "\nmax_depth_seen:     "
                                                      ++ (decimal st.max_depth_seen
                                                          ++ (codes "\ntotal_string_bytes: "
                                                            ++ (decimal st.total_string_bytes
                                                            ++ codes "\n")))))))))))))))

  abbrev pub collected : S → Run (World Stats) (Unit {0}) → Run (World S) Stats
  collected s (returned (ok _) w) = returned (ok w.outside) (world w.memory s)
  collected s (returned (err e) w) = returned (err e) (world w.memory s)
  collected s out_of_bounds = out_of_bounds
  collected s out_of_fuel = out_of_fuel

  -- walk(value, &st, 0)
  unfoldable pub walk_tree : Option Value → Exec (World S) Stats
  unfolding walk
  walk_tree value w = collected w.outside (walk nesting_fuel value 0 (world w.memory no_stats))

  abbrev pub size_loaded : Loaded → Exec (World S) ℕ
  size_loaded (refused rc) = pure rc
  size_loaded (loaded buf value) = do
    st ← walk_tree value
    show_and_free (call (os.fprintf os.stdout (size_report (length buf) st))) value

  unfoldable pub cmd_size : Option Bytes → Exec (World S) ℕ
  unfolding load walk_tree size_report free_loaded
  cmd_size path = load path >>= size_loaded
