-- ===== src/Dom/Sound.antt =====
-- bencode_parse accepts nothing but canonical encodings.
use bencode.Prelude.{
  arith, ℕ, ◌+◌, ◌≡◌, ◌≤◌, sym, ap, refl, subst, Bytes, Option, none, some, true, false, [], ◌++◌,
  length,
}
use bencode.Status.{Error, Status, ok, err}
use bencode.Grammar.{Tree, encode, IsCanonical, depth}
use bencode.Exec.{Run, returned}
use bencode.Exec.Ensures
use bencode.Exec.Ensures.{Ensures, returns, raises, Ensures-ok}
use bencode.Memory.{Memory, Heap, allocator_check}
use bencode.Sax.Parse.{bytes, effective_depth}
use bencode.Sax.Parse.Entry.{Accepted, Interrupted, parse_sax_sound, effective_depth-le}
use bencode.Value.{Value}
use bencode.Value.Build.{free_pointer}
use bencode.Memory.Frees.{Frees-run}
use bencode.Value.Free.{Frees-value_free}
use bencode.Dom.Attach.{root_blocks}
use bencode.Dom.{DomState}
use bencode.Dom.Callbacks.{
  DomUser, building, dom_callbacks, ParseOptions, parse, report, conclude, checked,
}
use bencode.Dom.Change.{dom}
use bencode.Dom.Builds.{builds_value, Breaks-IsSafe}
use bencode.Dom.Leads.{Leads, goes, stops}
use bencode.Dom.Entry.{Parsed, root_Ensures}

not_ok : (x : Error) (st : Status) → st ≡ err x → st ≡ ok tt → ⊥
not_ok x st e f = cc

-- The state behind callbacks that all returned BENCODE_OK.
Leads-ok :
    {P : DomState → Type 0} {E : Error → DomState → Type 0} {o : Status × DomUser} (u : DomUser)
    → Leads P E o
    → o ≡ (ok tt, u)
    → (s : DomState) × (u ≡ building s) × P s
Leads-ok u (goes {s} p) e = (s, sym (ap (λ x. x.1) e), p)
Leads-ok u (stops {e = x} q) e = absurd (not_ok x (err x) refl (ap (λ y. y.0) e))

-- Releasing what was built so far.
report_released :
    {P : Option Value → Memory × ℕ → Type 0} (live : ℕ) (e : Error) (n : ℕ) (root : Option Value)
    (m : Memory)
    → m.live ≡ root_blocks root + live
    → Ensures P (λ _ t. t.0.live ≡ live) (report e n (free_pointer root m))
unfolding free_pointer
report_released live e n none m owns = raises (omega (arith, owns))
report_released live e n (some r) m owns =
    rw (Frees-run live m (Frees-value_free r) owns) (raises refl)

module _ (h : Heap) (opts : ParseOptions) (input : Bytes) (m : Memory) where
  -- The input begins with the canonical encoding of a value that the tree represents.
  pub record Decoded (out : Option Value) (s : Memory × ℕ) : Type 0 where
    pub value : Tree
    pub rest : Bytes
    pub canonical : IsCanonical value
    pub shallow : depth value ≤ effective_depth opts.max_depth
    pub split : input ≡ encode value ++ rest
    pub parsed : Parsed value m.live out s.0 s.1
    pub strict : opts.allow_trailing ≡ false → rest ≡ []

  abbrev Sent : DomUser → ℕ → Type 0
  Sent u n = Accepted (some (dom_callbacks h)) (building (dom none [] m)) opts.max_depth input u n

  -- The end of bencode_parse behind a parse that succeeded.
  accepted_Ensures :
      (u : DomUser) (n : ℕ)
      → allocator_check h ≡ ok tt
      → Sent u n
      → Ensures Decoded
          (λ _ t. t.0.live ≡ m.live)
          (conclude (length input) opts.allow_trailing (returned (ok tt) (u, n)))
  accepted_Ensures u n valid a =
      let (t, e, built) =
        Leads-ok u
          (builds_value h m.live valid a.value m a.canonical
            (omega (arith, a.shallow, effective_depth-le opts.max_depth)) refl)
          a.sent in
      rw (e, a.counted, ap length a.split)
        (Ensures.mono (root_Ensures h a.value m.live opts.allow_trailing a.rest t built)
          (λ out s (parsed, strict). record {
            value = a.value;
            rest = a.rest;
            canonical = a.canonical;
            shallow = a.shallow;
            split = a.split;
            parsed = parsed;
            strict = strict;
          })
          (λ _ _ (kept, _). kept))

  -- The end of bencode_parse behind a parse that failed.
  broken_Ensures :
      (x : Error) (u : DomUser) (n : ℕ)
      → allocator_check h ≡ ok tt
      → Interrupted (some (dom_callbacks h)) (building (dom none [] m)) opts.max_depth input u
      → Ensures Decoded
          (λ _ t. t.0.live ≡ m.live)
          (conclude (length input) opts.allow_trailing (returned (err x) (u, n)))
  broken_Ensures x u n valid b =
      let (t, e, safe) =
        Breaks-IsSafe h m.live valid input b.value m u b.canonical
          (omega (arith, b.shallow, effective_depth-le opts.max_depth)) refl b.breaks in
      rw e (report_released m.live x n t.root t.memory safe)

  conclude_Ensures :
      {r : Run (DomUser × ℕ) (Unit {0})}
      → allocator_check h ≡ ok tt
      → Ensures
          (λ _ t.
            (inp : Bytes) × (bytes input ≡ bytes inp)
            × Accepted
                (some (dom_callbacks h))
                (building (dom none [] m))
                opts.max_depth
                inp
                t.0
                t.1)
          (λ _ t.
            Interrupted
              (some (dom_callbacks h))
              (building (dom none [] m))
              opts.max_depth
              input
              t.0)
          r
      → Ensures Decoded (λ _ t. t.0.live ≡ m.live) (conclude (length input) opts.allow_trailing r)
  conclude_Ensures valid (raises {e} {s = (u, n)} b) = broken_Ensures e u n valid b
  conclude_Ensures valid (returns {s = (u, n)} (inp, same, a)) =
      let whole : inp ≡ input = cc in
      accepted_Ensures u n valid (
        subst
          (λ x. Accepted (some (dom_callbacks h)) (building (dom none [] m)) opts.max_depth x u n)
          whole a)

  checked_Ensures :
      (st : Status)
      → allocator_check h ≡ st
      → Ensures Decoded (λ _ t. t.0.live ≡ m.live) (checked h st (bytes input) opts m)
  checked_Ensures (err e) check = raises refl
  checked_Ensures (ok _) check = conclude_Ensures check (
      parse_sax_sound (some (dom_callbacks h)) (building (dom none [] m)) opts.max_depth
        (bytes input))

  -- Every call of bencode_parse on a buffer returns, with no access out of bounds. A success means
  -- that the input begins with the canonical encoding of a value no deeper than the limit, that
  -- the tree returned represents it, and that its blocks are live in addition. A failure, whatever
  -- the input, leaves no block live in addition.
  pub parse-Ensures : Ensures Decoded (λ _ t. t.0.live ≡ m.live) (parse h true (bytes input) opts m)
  unfolding parse
  parse-Ensures = checked_Ensures (allocator_check h) refl

  -- If bencode_parse accepts a buffer, the buffer begins with the canonical encoding of a value no
  -- deeper than the limit, the tree returned represents it, consumed is the length of the
  -- encoding, the blocks of the tree are live in addition, and unless they are allowed there are
  -- no bytes behind the value.
  pub parse_sound :
      (out : Option Value) (s : Memory × ℕ)
      → parse h true (bytes input) opts m ≡ returned (ok out) s
      → Decoded out s
  parse_sound out s q = Ensures-ok parse-Ensures q
