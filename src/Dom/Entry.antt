-- ===== src/Dom/Entry.antt =====
-- bencode_parse on a canonical input: it returns the tree, or releases all that it allocated.
use bencode.Prelude.{
  ℕ, ◌+◌, ◌≡◌, ◌≢◌, ◌≤◌, ◌⊎◌, inl, inr, refl, Bytes, Option, none, some, Bool, true, false, [], ◌∷◌,
  ◌++◌, length, ◌==◌, arith, length-append_bytes, append-nil,
}
use bencode.Status.{Error, Status, ok, err, nomem, unexpected_byte}
use bencode.Grammar.{Tree, encode, IsCanonical, depth}
use bencode.Exec.{Run}
use bencode.Exec.Ensures.{Ensures, returns, raises}
use bencode.Memory.{Memory, Heap, allocator_check}
use bencode.Memory.Frees.{Frees-run}
use bencode.Sax.Parse.{bytes, effective_depth}
use bencode.Sax.Parse.Entry.{Reports, parse_sax_complete, effective_depth-le}
use bencode.Value.{Value, view, blocks}
use bencode.Value.Build.{free_pointer}
use bencode.Value.Free.{Frees-value_free}
use bencode.Dom.{DomState}
use bencode.Dom.Callbacks.{
  DomUser, building, dom_callbacks, ParseOptions, parse, report, deliver_root, conclude, checked,
}
use bencode.Dom.Change.{dom}
use bencode.Dom.Attach.{Fails, root_blocks, at_top}
use bencode.Dom.Builds.{builds_value}
use bencode.Dom.Fills.{Built}
use bencode.Dom.Leads.{Leads, goes, stops}

-- A tree that represents `t`, the blocks that it owns, and the bytes that were read.
pub record Parsed (t : Tree) (live : ℕ) (out : Option Value) (memory : Memory) (consumed : ℕ)
    : Type 0 where
  pub tree : Value
  pub result : out ≡ some tree
  pub represents : view tree ≡ t
  pub owns : memory.live ≡ blocks tree + live
  pub counted : consumed ≡ length (encode t)

module _ (h : Heap) (allow_trailing : Bool) (rest : Bytes) where
  -- Why a canonical input may be refused.
  abbrev pub Refusal : Error → Type 0
  Refusal e =
      (e ≡ nomem)
      ⊎ ((allocator_check h ≡ err e)
          ⊎ ((e ≡ unexpected_byte) × (allow_trailing ≡ false) × (rest ≢ [])))

  abbrev pub Returns : Tree → ℕ → Option Value → Memory × ℕ → Type 0
  Returns t live out s = Parsed t live out s.0 s.1 × (allow_trailing ≡ false → rest ≡ [])

  abbrev pub Releases : ℕ → Error → Memory × ℕ → Type 0
  Releases live e s = (s.0.live ≡ live) × Refusal e

  report_Ensures :
      (t : Tree) (live : ℕ) (root : Option Value) (m : Memory) (e : Error) (n : ℕ)
      → m.live ≡ root_blocks root + live
      → Refusal e
      → Ensures (Returns t live) (Releases live) (report e n (free_pointer root m))
  unfolding free_pointer
  report_Ensures t live none m e n owns why = raises (omega (arith, owns), why)
  report_Ensures t live (some r) m e n owns why =
      rw (Frees-run live m (Frees-value_free r) owns) (raises (refl, why))

module _ (h : Heap) (t : Tree) (live : ℕ) where
  -- The end of bencode_parse behind a parse that succeeded.
  pub root_Ensures :
      (allow_trailing : Bool) (rest : Bytes) (s : DomState)
      → Built h live [] t s
      → Ensures
          (Returns h allow_trailing rest t live)
          (Releases h allow_trailing rest live)
          (deliver_root (length (encode t ++ rest)) allow_trailing (ok tt) s (length (encode t)))
  root_Ensures true rest s (_, at_top, v, e, (m, same, owns)) = rw same (
      returns
        (record { tree = v; result = refl; represents = e; owns = owns; counted = refl }, λ q. cc))
  root_Ensures false [] s (_, at_top, v, e, (m, same, owns)) =
      let test : (length (encode t) == length (encode t ++ [])) ≡ true =
        rw (append-nil (encode t)) (ground arith) in
      rw (test, same)
        (returns (
          record { tree = v; result = refl; represents = e; owns = owns; counted = refl },
          λ q. refl,
        ))
  root_Ensures false (c ∷ cs) s (_, at_top, v, e, (m, same, owns)) =
      let test : (length (encode t) == length (encode t ++ c ∷ cs)) ≡ false =
        ground (arith, length-append_bytes (encode t) (c ∷ cs)) in
      rw (test, same)
        (report_Ensures h false (c ∷ cs) t live (some v) m unexpected_byte (length (encode t)) owns
          (inr (inr (refl, refl, λ q. cc))))

  conclude_Ensures :
      (allow_trailing : Bool) (rest : Bytes) (o : Status × DomUser)
      (r : Run (DomUser × ℕ) (Unit {0}))
      → Leads (Built h live [] t) (Fails live) o
      → Reports (length (encode t)) o r
      → Ensures
          (Returns h allow_trailing rest t live)
          (Releases h allow_trailing rest live)
          (conclude (length (encode t ++ rest)) allow_trailing r)
  conclude_Ensures allow_trailing rest _ r (goes {s} built) e =
      rw e (root_Ensures allow_trailing rest s built)
  conclude_Ensures allow_trailing rest _ r (stops {e = x} {s} (short, owns)) (n, e) =
      rw e (report_Ensures h allow_trailing rest t live s.root s.memory x n owns (inl short))

module _ (h : Heap) (opts : ParseOptions) where
  checked_Ensures :
      (st : Status) (t : Tree) (rest : Bytes) (m : Memory)
      → allocator_check h ≡ st
      → IsCanonical t
      → depth t ≤ effective_depth opts.max_depth
      → Ensures
          (Returns h opts.allow_trailing rest t m.live)
          (Releases h opts.allow_trailing rest m.live)
          (checked h st (bytes (encode t ++ rest)) opts m)
  checked_Ensures (err e) t rest m check canonical shallow = raises (refl, inr (inl check))
  checked_Ensures (ok _) t rest m check canonical shallow =
      conclude_Ensures h t m.live opts.allow_trailing rest _ _
        (builds_value h m.live check t m canonical
          (omega (arith, effective_depth-le opts.max_depth)) refl)
        (parse_sax_complete (some (dom_callbacks h)) (building (dom none [] m)) opts.max_depth t
          rest canonical shallow)

  -- On the canonical encoding of a value no deeper than the limit, with any bytes behind it,
  -- bencode_parse returns. It returns a tree that represents the value, with exactly its blocks
  -- live in addition, and then there are no bytes behind it unless these are allowed; or it fails
  -- with no block live in addition: for want of memory, by bencode_allocator_check, or with
  -- BENCODE_ERR_UNEXPECTED_BYTE for bytes behind the value.
  pub parse_complete :
      (t : Tree) (rest : Bytes) (m : Memory)
      → IsCanonical t
      → depth t ≤ effective_depth opts.max_depth
      → Ensures
          (Returns h opts.allow_trailing rest t m.live)
          (Releases h opts.allow_trailing rest m.live)
          (parse h true (bytes (encode t ++ rest)) opts m)
  unfolding parse
  parse_complete t rest m canonical shallow =
      checked_Ensures (allocator_check h) t rest m refl canonical shallow
