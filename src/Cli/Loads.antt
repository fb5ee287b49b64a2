-- ===== src/Cli/Loads.antt =====
-- load returns the tree of a canonical input, or an exit code with nothing left on the heap.
use bencode.Prelude.{
  ℕ, suc, ◌+◌, ◌≤◌, ◌≡◌, ◌∙◌, sym, ap, refl, subst, Bytes, Option, some, ◌++◌, append-nil, length,
  arith,
}
use bencode.Prelude.Int.{size_max}
use bencode.Status.{Error, Result, ok, err}
use bencode.Grammar.{encode, IsCanonical, depth}
use bencode.Exec.{Run}
use bencode.Exec.Ensures
use bencode.Exec.Ensures.{Ensures, returns, raises}
use bencode.Memory.{Memory}
use bencode.Memory.Frees.{Frees-run, Frees-free}
use bencode.Value.{Value, view, blocks}
use bencode.Sax.Parse.{effective_depth}
use bencode.Dom.Callbacks.{default_options}
use bencode.Dom.Sound.{Decoded, parse-Ensures}
use bencode.Cli.{Platform, World, world, libc, open_input}
use bencode.Cli.Attempts.{Either, attempt-Ensures}
use bencode.Cli.Reads.{Streams}
use bencode.Cli.Reads.Whole.{input_of, HasRead, read_all-Ensures}
use bencode.Cli.Commands.{
  Loaded, refused, loaded, status_to_exit, report_parse, conclude_load, parse_input, load,
}

pub status_to_exit-range : (e : Error) → (1 ≤ status_to_exit e) × (status_to_exit e ≤ 2)
unfolding status_to_exit
status_to_exit-range e = ground arith

module _ {S : Type 0} (contents : S → Bytes) where
  -- The buffer, which is the whole input, and the tree of the value that it encodes.
  pub record Holds (live : ℕ) (input : Option Bytes) (output : Bytes) (buf : Bytes)
      (value : Option Value) (t : World S) : Type 0 where
    pub tree : Value
    pub result : value ≡ some tree
    pub canonical : IsCanonical (view tree)
    pub shallow : depth (view tree) ≤ effective_depth 0
    pub whole : buf ≡ encode (view tree)
    pub sized : length buf ≤ size_max
    pub opened : input ≡ some buf
    pub owns : t.memory.live ≡ suc (blocks tree + live)
    pub quiet : contents t.outside ≡ output

  abbrev pub Loads : ℕ → Option Bytes → Bytes → Loaded → World S → Type 0
  Loads live input output (refused rc) t = (1 ≤ rc) × (rc ≤ 2) × (t.memory.live ≡ live)
  Loads live input output (loaded buf value) t = Holds live input output buf value t

module _ {F S : Type 0} (os : Platform F S) (prog : Bytes) (contents : S → Bytes) (live : ℕ)
    (input : Option Bytes) (output : Bytes) where
  report_parse-Ensures :
      (e : Error) (consumed : ℕ) (m : Memory) (s : S)
      → m.live ≡ suc live
      → Ensures
          (Loads contents live input output)
          (λ _ _. ⊥)
          (report_parse os prog e consumed (world m s))
  unfolding report_parse
  report_parse-Ensures e consumed m s owns =
      rw (Frees-run live m Frees-free (omega (arith, owns)))
        (let (low, high) = status_to_exit-range e in returns (low, high, refl))

  conclude-Ensures :
      (buf : Bytes) (m : Memory) (s : S) {r : Run (Memory × ℕ) (Option Value)}
      → input ≡ some buf
      → m.live ≡ suc live
      → contents s ≡ output
      → length buf ≤ size_max
      → Ensures (Decoded (libc os) default_options buf m) (λ _ t. t.0.live ≡ m.live) r
      → Ensures (Loads contents live input output) (λ _ _. ⊥) (conclude_load os prog buf s r)
  conclude-Ensures buf m s opened owns quiet sized (returns {a} {s = (n, consumed)} d) =
      let same = d.parsed.represents in
      returns (record {
        tree = d.parsed.tree;
        result = d.parsed.result;
        canonical = subst IsCanonical (sym same) d.canonical;
        shallow = subst (λ v. depth v ≤ effective_depth 0) (sym same) d.shallow;
        whole =
            d.split
            ∙ ap (λ r. encode d.value ++ r) (d.strict refl)
            ∙ append-nil (encode d.value)
            ∙ ap encode (sym same);
        sized = sized;
        opened = opened;
        owns = omega (arith, d.parsed.owns, owns);
        quiet = quiet;
      })
  conclude-Ensures buf m s opened owns quiet sized (raises {e} {s = (n, consumed)} kept) =
      report_parse-Ensures e consumed n s (kept ∙ owns)

  parse_input-Ensures :
      (path : Option Bytes) (rc : Result Bytes) (w : World S)
      → Either (HasRead contents input live output) (λ _ t. t.memory.live ≡ live) rc w
      → Ensures (Loads contents live input output) (λ _ _. ⊥) (parse_input os prog path rc w)
  parse_input-Ensures path (err e) w kept = returns (omega arith, omega arith, kept)
  parse_input-Ensures path (ok buf) w (opened, owns, quiet, sized) =
      conclude-Ensures buf w.memory w.outside opened owns quiet sized
        (parse-Ensures (libc os) default_options buf w.memory)

module _ {F S : Type 0} (os : Platform F S) (left : F → S → Bytes) (contents : S → Bytes)
    (streams : Streams os left contents) (prog : Bytes) where
  pub load-Ensures :
      (path : Option Bytes) (w : World S)
      → Ensures
          (Loads contents w.memory.live
            (input_of left (open_input os path w.outside))
            (contents w.outside))
          (λ _ _. ⊥)
          (load os prog path w)
  unfolding load
  load-Ensures path w =
      Ensures.bind {k = parse_input os prog path}
        (attempt-Ensures (read_all-Ensures os left contents streams path w))
        (λ rc t known.
          parse_input-Ensures os prog contents w.memory.live
            (input_of left (open_input os path w.outside)) (contents w.outside) path rc t known)
        (λ _ _ never. never)
