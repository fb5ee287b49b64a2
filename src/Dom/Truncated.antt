-- ===== src/Dom/Truncated.antt =====
-- bencode_parse on an input that is cut off.
use bencode.Prelude.{◌≡◌, ◌≢◌, ◌≤◌, Bytes, true, [], ◌++◌}
use bencode.Grammar.{Tree, encode, IsCanonical, depth}
use bencode.Exec.Ensures
use bencode.Exec.Ensures.{Ensures}
use bencode.Memory.{Memory, Heap}
use bencode.Sax.Parse.{bytes, effective_depth}
use bencode.Sax.Parse.Prefixes.{nothing_cut}
use bencode.Dom.Callbacks.{ParseOptions, parse}
use bencode.Dom.Sound.{parse-Ensures}

module _ (h : Heap) (opts : ParseOptions) (m : Memory) where
  -- Wherever the canonical encoding of a value no deeper than the effective limit is cut off
  -- before its end, bencode_parse returns an error for what is left, whatever the other options,
  -- and no block is live in addition.
  pub truncated_released :
      (v : Tree) (front back : Bytes)
      → IsCanonical v
      → depth v ≤ effective_depth opts.max_depth
      → encode v ≡ front ++ back
      → back ≢ []
      → Ensures (λ _ _. ⊥) (λ _ t. t.0.live ≡ m.live) (parse h true (bytes front) opts m)
  truncated_released v front back canonical shallow cut more =
      Ensures.mono (parse-Ensures h opts front m)
        (λ _ t d. more (
          nothing_cut opts.max_depth d.value v front d.rest back d.canonical canonical d.shallow
            shallow d.split cut))
        (λ _ _ q. q)
