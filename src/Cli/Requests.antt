-- ===== src/Cli/Requests.antt =====
-- The words of a command line, and what is done with those that are not understood.
use bencode.Prelude.{
  ℕ, ◌≡◌, ap, refl, Bytes, Bool, true, false, Option, none, some, List, [], ◌∷◌, ◌++◌, codes,
}
use bencode.Exec.{pure, ◌>>◌}
use bencode.Exec.Ensures
use bencode.Exec.Ensures.{Ensures, returns, raises}
use bencode.Memory.{Memory}
use bencode.Cli.{Platform, World, world, succeed, keep}
use bencode.Cli.Commands.{diagnose, exit_code}
use bencode.Cli.Main.{usage, print_usage}

-- The operand of a subcommand, if any, with `--` in front of it or not.
pub data Operand : List Bytes → Option Bytes → Type 0 where
  no_operand : Operand [] none
  marker_alone : Operand (codes "--" ∷ []) none
  operand : {file : Bytes} → Operand (file ∷ []) (some file)
  marked_operand : {file : Bytes} → Operand (codes "--" ∷ file ∷ []) (some file)

module _ {S : Type 0} where
  -- The heap is left alone, whatever the call says.
  attempt_quiet :
      (m : Memory) (o : Bool × S) → Ensures (λ _ t. t.memory ≡ m) (λ _ _. ⊥) (keep (succeed m o))
  attempt_quiet m (true, s) = returns refl
  attempt_quiet m (false, s) = returns refl

module _ {F S : Type 0} (os : Platform F S) (prog : Bytes) where
  usage_quiet :
      (stream : F) (w : World S)
      → Ensures (λ _ t. t.memory ≡ w.memory) (λ _ _. ⊥) (print_usage os prog stream w)
  unfolding print_usage
  usage_quiet stream w =
      Ensures.bind {k = λ rc. pure (exit_code rc)}
        (attempt_quiet w.memory (os.fprintf stream (usage os prog) w.outside))
        (λ _ _ same. returns same) (λ _ _ never. never)

  -- Exit code 2, and nothing on the heap.
  abbrev pub Rejects : World S → ℕ → World S → Type 0
  Rejects w rc t = (rc ≡ 2) × (t.memory.live ≡ w.memory.live)

  pub usage-Rejects :
      (w : World S) → Ensures (Rejects w) (λ _ _. ⊥) ((print_usage os prog os.stderr >> pure 2) w)
  usage-Rejects w =
      Ensures.bind {k = λ _. pure 2} (usage_quiet os.stderr w)
        (λ _ _ same. returns (refl, ap (λ m. m.live) same)) (λ _ _ never. never)

  pub reject-Rejects :
      (text : Bytes) (w : World S)
      → Ensures
          (Rejects w)
          (λ _ _. ⊥)
          ((diagnose os prog text >> (print_usage os prog os.stderr >> pure 2)) w)
  reject-Rejects text w =
      usage-Rejects
        (world w.memory (os.fprintf os.stderr (prog ++ (codes ": " ++ text)) w.outside).1)
