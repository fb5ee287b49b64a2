-- ===== src/Cli/Exits.antt =====
-- What a subcommand does behind load: it exits with 0 only if the output has grown by its text, and
-- it frees what load left.
use bencode.Prelude.{ℕ, suc, ◌+◌, ◌≤◌, ◌≡◌, ◌∙◌, ap, refl, Bytes, Option, some, ◌++◌, arith}
use bencode.Status.{Result, ok, err}
use bencode.Grammar.{Tree, encode, IsCanonical, depth}
use bencode.Exec.{Exec, pure, ◌>>=◌, ◌>>◌}
use bencode.Exec.Ensures
use bencode.Exec.Ensures.{Ensures, returns, raises}
use bencode.Memory.{Memory}
use bencode.Memory.Frees.{memory, Frees-run}
use bencode.Value.{Value, view, blocks}
use bencode.Value.Build.{free_pointer}
use bencode.Value.Free.{Frees-value_free}
use bencode.Sax.Parse.{effective_depth}
use bencode.Cli.{Platform, World, world, attempt, open_input}
use bencode.Cli.Attempts.{Either, attempt-Ensures}
use bencode.Cli.Reads.{Streams}
use bencode.Cli.Reads.Whole.{input_of}
use bencode.Cli.Print.Prints.{Prints, Wrote}
use bencode.Cli.Commands.{Loaded, refused, loaded, load, exit_code, free_loaded, show_and_free}
use bencode.Cli.Loads.{Holds, Loads, load-Ensures}

module _ {S : Type 0} (contents : S → Bytes) where
  -- The input is the canonical encoding of a value, and the output has grown by its text.
  pub record Served (text : Tree → Bytes) (input : Option Bytes) (output : Bytes) (t : World S)
      : Type 0 where
    pub value : Tree
    pub canonical : IsCanonical value
    pub shallow : depth value ≤ effective_depth 0
    pub encoded : input ≡ some (encode value)
    pub wrote : contents t.outside ≡ output ++ text value

  -- An exit code, with nothing left on the heap.
  abbrev pub Exits : (Tree → Bytes) → ℕ → Option Bytes → Bytes → ℕ → World S → Type 0
  Exits text live input output rc t =
      (t.memory.live ≡ live) × (rc ≤ 2) × (rc ≡ 0 → Served text input output t)

module _ {S : Type 0} (contents : S → Bytes) (text : Bytes) where
  -- The result of an output, as an exit code.
  abbrev pub Reported : Memory → S → ℕ → World S → Type 0
  Reported m s rc u = (u.memory ≡ m) × (rc ≤ 2) × (rc ≡ 0 → contents u.outside ≡ contents s ++ text)

  exit-Ensures :
      (m : Memory) (s : S) (r : Result (Unit {0})) (u : World S)
      → Either (λ _ t. Wrote contents text m s t) (λ _ t. t.memory ≡ m) r u
      → Ensures (Reported m s) (λ _ _. ⊥) (pure (exit_code r) u)
  exit-Ensures m s (ok _) u (same, wrote) = returns (same, omega arith, λ _. wrote)
  exit-Ensures m s (err e) u same =
      returns (same, omega arith, λ zero. absurd (omega (arith, zero)))

  pub report-Ensures :
      (show : Exec (World S) (Unit {0})) (m : Memory) (s : S)
      → Prints contents text show
      → Ensures (Reported m s) (λ _ _. ⊥) ((attempt show >>= λ r. pure (exit_code r)) (world m s))
  report-Ensures show m s shows =
      Ensures.bind {k = λ r. pure (exit_code r)} (attempt-Ensures (shows.prints m s))
        (exit-Ensures m s) (λ _ _ never. never)

module _ {F S : Type 0} (os : Platform F S) (prog : Bytes) where
  pub free_loaded-frees :
      (live : ℕ) (tree : Value) (m : Memory) (s : S)
      → m.live ≡ suc (blocks tree + live)
      → free_loaded os prog (some tree) (world m s) ≡ pure tt (world (memory m.requests live) s)
  unfolding free_loaded free_pointer
  free_loaded-frees live tree m s owns =
      rw (Frees-run (suc live) m (Frees-value_free tree) (omega (arith, owns))) refl

module _ {F S : Type 0} (os : Platform F S) (prog : Bytes) (contents : S → Bytes)
    (text : Tree → Bytes) (live : ℕ) (input : Option Bytes) (output buf : Bytes) where
  settle-Ensures :
      (value : Option Value) (t w : World S) (rc : Result (Unit {0}))
      (held : Holds contents live input output buf value t)
      → Either
          (λ _ u. Wrote contents (text (view held.tree)) t.memory t.outside u)
          (λ _ u. u.memory ≡ t.memory)
          rc
          w
      → Ensures
          (Exits contents text live input output)
          (λ _ _. ⊥)
          ((free_loaded os prog value >> pure (exit_code rc)) w)
  settle-Ensures value t w (ok _) held (same, wrote) =
      rw
        (
          held.result,
          free_loaded-frees os prog live held.tree w.memory w.outside
              (ap (λ m. m.live) same ∙ held.owns),
        )
        (returns (
          refl,
          omega arith,
          λ _. record {
            value = view held.tree;
            canonical = held.canonical;
            shallow = held.shallow;
            encoded = held.opened ∙ ap some held.whole;
            wrote = wrote ∙ ap (λ c. c ++ text (view held.tree)) held.quiet;
          },
        ))
  settle-Ensures value t w (err e) held same =
      rw
        (
          held.result,
          free_loaded-frees os prog live held.tree w.memory w.outside
              (ap (λ m. m.live) same ∙ held.owns),
        )
        (returns (refl, omega arith, λ zero. absurd (omega (arith, zero))))

  -- An output that appends the text of the value, and then the release.
  pub show_and_free-Ensures :
      (show : Exec (World S) (Unit {0})) (value : Option Value) (t : World S)
      (held : Holds contents live input output buf value t)
      → Prints contents (text (view held.tree)) show
      → Ensures
          (Exits contents text live input output)
          (λ _ _. ⊥)
          (show_and_free os prog show value t)
  show_and_free-Ensures show value t held shows =
      Ensures.bind {k = λ rc. free_loaded os prog value >> pure (exit_code rc)}
        (attempt-Ensures (shows.prints t.memory t.outside))
        (λ rc w known. settle-Ensures value t w rc held known) (λ _ _ never. never)

module _ {F S : Type 0} (os : Platform F S) (left : F → S → Bytes) (contents : S → Bytes)
    (streams : Streams os left contents) (prog : Bytes) (text : Tree → Bytes) where
  -- What a subcommand for an input makes of it, whatever the input.
  abbrev pub Serves : Option Bytes → World S → ℕ → World S → Type 0
  Serves path w =
      Exits contents text w.memory.live (input_of left (open_input os path w.outside))
        (contents w.outside)

  -- A subcommand, from what it does with a tree.
  pub command-Ensures :
      (path : Option Bytes) (w : World S) (go : Loaded → Exec (World S) ℕ)
      → ((rc : ℕ) (t : World S) → go (refused rc) t ≡ pure rc t)
      → ((buf : Bytes) (value : Option Value) (t : World S)
          → Holds contents w.memory.live
              (input_of left (open_input os path w.outside))
              (contents w.outside)
              buf
              value
              t
          → Ensures (Serves path w) (λ _ _. ⊥) (go (loaded buf value) t))
      → Ensures (Serves path w) (λ _ _. ⊥) ((load os prog path >>= go) w)
  command-Ensures path w go gives works =
      Ensures.bind {k = go} (load-Ensures os left contents streams prog path w) each
        (λ _ _ never. never)
    where
      each :
          (l : Loaded) (t : World S)
          → Loads contents w.memory.live
              (input_of left (open_input os path w.outside))
              (contents w.outside)
              l
              t
          → Ensures (Serves path w) (λ _ _. ⊥) (go l t)
      each (refused rc) t (low, high, kept) =
          rw (gives rc t) (returns (kept, high, λ zero. absurd (omega (arith, low, zero))))
      each (loaded buf value) t held = works buf value t held
