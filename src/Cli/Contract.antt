-- ===== src/Cli/Contract.antt =====
-- The contract of the command line: every call of main exits with 0, 1 or 2 and leaves nothing on
-- the heap, and 0 means that one of the documented requests was served.
use bencode.Prelude.{
  ℕ, ◌≤◌, ◌≡◌, ap, Bytes, true, Option, none, some, List, [], ◌∷◌, ◌++◌, ◌⊎◌, inl, inr, arith,
  codes, ◌||◌, Bool-cases,
}
use bencode.Grammar.{Tree}
use bencode.Exec.{Run}
use bencode.Exec.Ensures
use bencode.Exec.Ensures.{Ensures, returns, raises}
use bencode.Cli.{Platform, World, call, open_input}
use bencode.Prelude.Text.{same_text, same_text-eq}
use bencode.Cli.Reads.{Streams}
use bencode.Cli.Reads.Whole.{input_of}
use bencode.Cli.Print.Prints.{Outputs, Prints-call}
use bencode.Cli.Exits.{Reported, report-Ensures, Served, Serves}
use bencode.Cli.Serves.{
  ok_line, rendered_line, size_line, cmd_validate-Serves, cmd_print-Serves, cmd_size-Serves,
}
use bencode.Cli.Compares.{cmd_roundtrip-Serves}
use bencode.Cli.Main.{usage, print_usage, dispatch, operands, skip_marker, main_command, main}
use bencode.Cli.Requests.{
  Operand, no_operand, marker_alone, operand, marked_operand, Rejects, usage-Rejects,
  reject-Rejects,
}

module _ {F S : Type 0} (os : Platform F S) (left : F → S → Bytes) (contents : S → Bytes)
    (streams : Streams os left contents) (outputs : Outputs os os.stdout contents)
    (version prog : Bytes) (w : World S) where
  -- The whole input is canonical, and the output has grown by the text of its value.
  abbrev pub Serve : (Tree → Bytes) → Option Bytes → World S → Type 0
  Serve text file t =
      Served contents text (input_of left (open_input os file w.outside)) (contents w.outside) t

  abbrev pub Grown : Bytes → World S → Type 0
  Grown text t = contents t.outside ≡ contents w.outside ++ text

  -- A request of the command line behind the program's name, and what was done for it.
  pub data Serviced : List Bytes → World S → Type 0 where
    helped :
        {cmd : Bytes} {args : List Bytes} {t : World S}
        → (cmd ≡ codes "--help") ⊎ (cmd ≡ codes "-h")
        → Grown (usage os prog) t
        → Serviced (cmd ∷ args) t
    versioned :
        {cmd : Bytes} {args : List Bytes} {t : World S}
        → (cmd ≡ codes "--version") ⊎ (cmd ≡ codes "-V")
        → Grown (codes "bencode " ++ (version ++ codes "\n")) t
        → Serviced (cmd ∷ args) t
    validated :
        {args : List Bytes} {file : Option Bytes} {t : World S}
        → Operand args file
        → Serve ok_line file t
        → Serviced (codes "validate" ∷ args) t
    printed :
        {args : List Bytes} {file : Option Bytes} {t : World S}
        → Operand args file
        → Serve rendered_line file t
        → Serviced (codes "print" ∷ args) t
    roundtripped :
        {args : List Bytes} {file : Option Bytes} {t : World S}
        → Operand args file
        → Serve ok_line file t
        → Serviced (codes "roundtrip" ∷ args) t
    sized :
        {args : List Bytes} {file : Option Bytes} {t : World S}
        → Operand args file
        → Serve (size_line os left contents streams outputs prog) file t
        → Serviced (codes "size" ∷ args) t

  -- An exit code that a shell script may rely on.
  abbrev pub Honours : List Bytes → ℕ → World S → Type 0
  Honours args rc t = (t.memory.live ≡ w.memory.live) × (rc ≤ 2) × (rc ≡ 0 → Serviced args t)

  rejected : {args : List Bytes} (rc : ℕ) (t : World S) → Rejects os prog w rc t → Honours args rc t
  rejected rc t (two, kept) = (kept, omega (arith, two), λ zero. absurd (omega (arith, zero, two)))

  reported :
      {args : List Bytes} (text : Bytes) (rc : ℕ) (t : World S)
      → Reported contents text w.memory w.outside rc t
      → (Grown text t → Serviced args t)
      → Honours args rc t
  reported text rc t (same, small, wrote) serviced =
      (ap (λ m. m.live) same, small, λ zero. serviced (wrote zero))

  served :
      {args : List Bytes} {r : Run (World S) ℕ} (text : Tree → Bytes) (file : Option Bytes)
      → Ensures (Serves os left contents streams prog text file w) (λ _ _. ⊥) r
      → ((t : World S) → Serve text file t → Serviced args t)
      → Ensures (Honours args) (λ _ _. ⊥) r
  served text file run serviced =
      Ensures.mono run (λ _ t (kept, small, done). (kept, small, λ zero. serviced t (done zero)))
        (λ _ _ never. never)

  module _ (args : List Bytes) (file : Option Bytes) (given : Operand args file) where
    dispatch-Honours :
        (cmd : Bytes) → Ensures (Honours (cmd ∷ args)) (λ _ _. ⊥) (dispatch os prog cmd file w)
    unfolding dispatch
    dispatch-Honours cmd = elim (Bool-cases (same_text cmd (codes "validate"))) [
      | inl e ↦
          rw (e, same_text-eq cmd (codes "validate") e)
            (served ok_line file (cmd_validate-Serves os left contents streams outputs prog file w)
              (λ _ done. validated given done))
      | inr n1 ↦ elim (Bool-cases (same_text cmd (codes "print"))) [
        | inl e ↦
            rw (n1, e, same_text-eq cmd (codes "print") e)
              (served rendered_line file
                (cmd_print-Serves os left contents streams outputs prog file w)
                (λ _ done. printed given done))
        | inr n2 ↦ elim (Bool-cases (same_text cmd (codes "roundtrip"))) [
          | inl e ↦
              rw (n1, n2, e, same_text-eq cmd (codes "roundtrip") e)
                (served ok_line file
                  (cmd_roundtrip-Serves os left contents streams outputs prog file w)
                  (λ _ done. roundtripped given done))
          | inr n3 ↦ elim (Bool-cases (same_text cmd (codes "size"))) [
            | inl e ↦
                rw (n1, n2, n3, e, same_text-eq cmd (codes "size") e)
                  (served (size_line os left contents streams outputs prog) file
                    (cmd_size-Serves os left contents streams outputs prog file w)
                    (λ _ done. sized given done))
            | inr n4 ↦
                rw (n1, n2, n3, n4)
                  (Ensures.mono
                    (reject-Rejects os prog (codes "unknown subcommand: " ++ (cmd ++ codes "\n")) w)
                    rejected (λ _ _ never. never))
          ]
        ]
      ]
    ]

  operands-Honours :
      (cmd : Bytes) (args : List Bytes)
      → Ensures (Honours (cmd ∷ args)) (λ _ _. ⊥) (operands os prog cmd (skip_marker args) w)
  unfolding operands
  operands-Honours cmd [] = dispatch-Honours [] none no_operand cmd
  operands-Honours cmd (arg ∷ args) = elim (Bool-cases (same_text arg (codes "--"))) [
    | inl marker ↦ rw (marker, same_text-eq arg (codes "--") marker) (behind args)
    | inr other ↦ rw other (plain args)
  ]
    where
      behind :
          (rest : List Bytes)
          → Ensures (Honours (cmd ∷ codes "--" ∷ rest)) (λ _ _. ⊥) (operands os prog cmd rest w)
      behind [] = dispatch-Honours (codes "--" ∷ []) none marker_alone cmd
      behind (file ∷ []) = dispatch-Honours (codes "--" ∷ file ∷ []) (some file) marked_operand cmd
      behind (file ∷ extra ∷ more) =
          Ensures.mono
            (reject-Rejects os prog (codes "extra argument: " ++ (extra ++ codes "\n")) w) rejected
            (λ _ _ never. never)

      plain :
          (rest : List Bytes)
          → Ensures (Honours (cmd ∷ arg ∷ rest)) (λ _ _. ⊥) (operands os prog cmd (arg ∷ rest) w)
      plain [] = dispatch-Honours (arg ∷ []) (some arg) operand cmd
      plain (extra ∷ more) =
          Ensures.mono
            (reject-Rejects os prog (codes "extra argument: " ++ (extra ++ codes "\n")) w) rejected
            (λ _ _ never. never)

  either_text :
      (cmd a b : Bytes) → (same_text cmd a || same_text cmd b) ≡ true → (cmd ≡ a) ⊎ (cmd ≡ b)
  either_text cmd a b h = elim (Bool-cases (same_text cmd a)) [
    | inl e ↦ inl (same_text-eq cmd a e)
    | inr e ↦ inr (same_text-eq cmd b (rw e at h))
  ]

  command-Honours :
      (cmd : Bytes) (args : List Bytes)
      → Ensures (Honours (cmd ∷ args)) (λ _ _. ⊥) (main_command os prog version cmd args w)
  unfolding main_command print_usage
  command-Honours cmd args =
      elim (Bool-cases (same_text cmd (codes "--help") || same_text cmd (codes "-h"))) [
        | inl help ↦ rw help (
            Ensures.mono
              (report-Ensures contents (usage os prog) (call (os.fprintf os.stdout (usage os prog)))
                w.memory w.outside (Prints-call contents (outputs.fprintf (usage os prog))))
              (λ rc t r.
                reported (usage os prog) rc t r
                  (helped (either_text cmd (codes "--help") (codes "-h") help)))
              (λ _ _ never. never))
        | inr not_help ↦
            elim (Bool-cases (same_text cmd (codes "--version") || same_text cmd (codes "-V"))) [
              | inl asked ↦
                  let text = codes "bencode " ++ (version ++ codes "\n") in
                  rw (not_help, asked)
                    (Ensures.mono
                      (report-Ensures contents text (call (os.fprintf os.stdout text)) w.memory
                        w.outside (Prints-call contents (outputs.fprintf text)))
                      (λ rc t r.
                        reported text rc t r
                          (versioned (either_text cmd (codes "--version") (codes "-V") asked)))
                      (λ _ _ never. never))
              | inr other ↦ rw (not_help, other) (operands-Honours cmd args)
            ]
      ]

module _ {F S : Type 0} (os : Platform F S) (left : F → S → Bytes) (contents : S → Bytes)
    (streams : Streams os left contents) (outputs : Outputs os os.stdout contents) where
  -- What the exit code of a command line says; argv[0] is the program's name.
  abbrev pub Contract : Bytes → List Bytes → World S → ℕ → World S → Type 0
  Contract version [] w rc t = (rc ≡ 2) × (t.memory.live ≡ w.memory.live)
  Contract version (prog ∷ args) w rc t =
      Honours os left contents streams outputs version prog w args rc t

  -- For reading and output calls that do what the C standard says, every call of main returns, with
  -- no block left on the heap, and the exit code is 0, 1 or 2. It is 0 only for one of the requests
  -- `--help`, `-h`, `--version`, `-V`, `validate`, `print`, `roundtrip` and `size` with at most one
  -- operand, in front of which `--` may stand; and then the output has grown by exactly the text
  -- for it, and of a subcommand the whole input is the canonical encoding of a value within the
  -- default depth.
  pub main-Contract :
      (version : Bytes) (argv : List Bytes) (w : World S)
      → Ensures (Contract version argv w) (λ _ _. ⊥) (main os version argv w)
  unfolding main
  main-Contract version [] w = usage-Rejects os (codes "bencode") w
  main-Contract version (prog ∷ []) w =
      Ensures.mono (usage-Rejects os prog w)
        (rejected os left contents streams outputs version prog w) (λ _ _ never. never)
  main-Contract version (prog ∷ cmd ∷ args) w =
      command-Honours os left contents streams outputs version prog w cmd args
