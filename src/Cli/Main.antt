-- ===== src/Cli/Main.antt =====
-- src/main.c: the usage text and the dispatch of the command line.
use bencode.Prelude.{ℕ, Bytes, ◌||◌, Option, none, some, List, [], ◌∷◌, ◌++◌, if◌then◌else◌, codes}
use bencode.Exec.{Exec, pure, ◌>>=◌, ◌>>◌}
use bencode.Cli.{Platform, World, call, attempt}
use bencode.Prelude.Text.{same_text}
use bencode.Cli.Commands.{diagnose, exit_code, cmd_validate, cmd_print, cmd_roundtrip, cmd_size}

abbrev usage_tail : Bytes
usage_tail =
    codes " {--version | -V}\n\nSubcommands:\n"
    ++ (codes "  validate   Verify that FILE contains canonical Bencode.\n"
        ++ (codes "  print      Decode and pretty-print FILE in a human-readable form.\n"
            ++ (codes "  roundtrip  Decode then re-encode; assert bit-exact match.\n"
                ++ (codes "  size       Print structural statistics about FILE.\n\n"
                    ++ (codes "FILE may be `-` or omitted to read from standard input.\n"
                        ++ (codes "Exit codes: 0 success; 1 invalid input or roundtrip mismatch; "
                            ++ codes "2 I/O\nor unknown option.\n"))))))

-- if (next_arg < argc && strcmp(argv[next_arg], "--") == 0) { next_arg++; }
abbrev pub skip_marker : List Bytes → List Bytes
skip_marker [] = []
skip_marker (arg ∷ args) = if same_text arg (codes "--") then args else arg ∷ args

module _ {F S : Type 0} (os : Platform F S) (prog : Bytes) where
  unfoldable pub usage : Bytes
  usage =
      codes "Usage: "
      ++ (prog
          ++ (codes " <subcommand> [FILE]\n       "
              ++ (prog ++ (codes " {--help | -h}\n       " ++ (prog ++ usage_tail)))))

  unfoldable pub print_usage : F → Exec (World S) ℕ
  print_usage stream = attempt (call (os.fprintf stream usage)) >>= λ rc. pure (exit_code rc)

  -- The tests of argv[1] behind the arguments, each with the command.
  unfoldable pub dispatch : Bytes → Option Bytes → Exec (World S) ℕ
  unfolding cmd_validate cmd_print cmd_roundtrip cmd_size print_usage
  dispatch cmd file =
      if same_text cmd (codes "validate")
      then cmd_validate os prog file
      else if same_text cmd (codes "print")
      then cmd_print os prog file
      else if same_text cmd (codes "roundtrip")
      then cmd_roundtrip os prog file
      else if same_text cmd (codes "size")
      then cmd_size os prog file
      else (do
        diagnose os prog (codes "unknown subcommand: " ++ (cmd ++ codes "\n"))
        print_usage os.stderr
        pure 2)

  -- argv[next_arg] and what stands behind it.
  unfoldable pub operands : Bytes → List Bytes → Exec (World S) ℕ
  unfolding dispatch print_usage
  operands cmd [] = dispatch cmd none
  operands cmd (file ∷ []) = dispatch cmd (some file)
  operands cmd (file ∷ extra ∷ _) = do
    diagnose os prog (codes "extra argument: " ++ (extra ++ codes "\n"))
    print_usage os.stderr
    pure 2

  -- argv[1], and argv[2] and on. `version` is bencode_version().
  unfoldable pub main_command : Bytes → Bytes → List Bytes → Exec (World S) ℕ
  unfolding operands print_usage
  main_command version cmd args =
      if same_text cmd (codes "--help") || same_text cmd (codes "-h")
      then print_usage os.stdout
      else if same_text cmd (codes "--version") || same_text cmd (codes "-V")
      then (attempt (call (os.fprintf os.stdout (codes "bencode " ++ (version ++ codes "\n"))))
          >>= λ rc. pure (exit_code rc))
      else operands cmd (skip_marker args)

-- `argv` holds the argc strings. SIGPIPE is ignored, so a broken pipe is an error of the output.
unfoldable pub main : {F S : Type 0} → Platform F S → Bytes → List Bytes → Exec (World S) ℕ
unfolding main_command print_usage
main os version [] = print_usage os (codes "bencode") os.stderr >> pure 2
main os version (prog ∷ []) = print_usage os prog os.stderr >> pure 2
main os version (prog ∷ cmd ∷ args) = main_command os prog version cmd args
