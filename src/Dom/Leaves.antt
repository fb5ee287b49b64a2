-- ===== src/Dom/Leaves.antt =====
-- Making a node and attaching it: the leaf callbacks, and the start of a container.
use bencode.Prelude.{ℕ, suc, ◌+◌, ◌≡◌, ap, refl, Bytes, true, false, List, [], ◌∷◌, arith}
use bencode.Prelude.Int.{ℤ}
use bencode.Status.{ok}
use bencode.Exec.{Exec, pure, ◌>>=◌}
use bencode.Exec.Ensures
use bencode.Exec.Ensures.{Ensures, returns, raises}
use bencode.Memory.{Memory, Heap, allocator_check}
use bencode.Memory.Frees.{Frees-run}
use bencode.Value.{Value, int_value, string_value, blocks}
use bencode.Value.Free.{Frees-value_free}
use bencode.Value.Build.{value_free, int_new, string_new_borrowed}
use bencode.Value.Build.Growth.{Kept}
use bencode.Value.Build.Nodes.{Made, checked_Ensures, value_alloc-Ensures}
use bencode.Dom.{DomState, on_memory, Position}
use bencode.Dom.Callbacks.{attach_or_free, dom_on_int, attach_string}
use bencode.Dom.Contexts.{Context, in_list, in_dict}
use bencode.Dom.Change.{dom, on_memory-Ensures}
use bencode.Dom.Attach.{Waits, Fails, Attached, attach-Ensures, root_blocks}

-- The blocks of the tree are live, and `others` more.
abbrev pub IsSafe : ℕ → DomState → Type 0
IsSafe others s = s.memory.live ≡ root_blocks s.root + others

module _ (others : ℕ) where
  pub Waits-live : (cs : List Context) (s : DomState) → Waits others cs s → IsSafe others s
  Waits-live [] s (m, same, live) = rw same (omega (arith, live))
  Waits-live (in_list xs c ∷ cs) s (m, same, live, _) = rw same live
  Waits-live (in_dict fs k c ∷ cs) s (m, same, live, _, _, _, _) = rw same live

  -- One more block outside the tree.
  Waits-more :
      (b : ℕ) (cs : List Context) (s : DomState) (n : Memory)
      → Waits others cs s
      → n.live ≡ suc s.memory.live
      → b ≡ 1
      → Waits (b + others) cs (dom s.root s.frames n)
  Waits-more b [] s n (m, same, live) more one = (
    n,
    ap (λ x. dom x.root x.frames n) same,
    omega (arith, more, one, live, ap (λ x. x.memory.live) same),
  )
  Waits-more b (in_list xs c ∷ cs) s n (m, same, live, small) more one = (
    n,
    ap (λ x. dom x.root x.frames n) same,
    omega (arith, more, one, live, ap (λ x. x.memory.live) same),
    small,
  )
  Waits-more b (in_dict fs k c ∷ cs) s n (m, same, live, small, room, ordered, last) more one = (
    n,
    ap (λ x. dom x.root x.frames n) same,
    omega (arith, more, one, live, ap (λ x. x.memory.live) same),
    small,
    room,
    ordered,
    last,
  )

  module _ (h : Heap) where
    attach_or_free-Ensures :
        (node : Value) (cs : List Context) (s : DomState)
        → Waits (blocks node + others) cs s
        → Ensures (Attached h node others cs) (Fails others) (attach_or_free h node s)
    attach_or_free-Ensures node cs s w =
        Ensures.clean {c = on_memory (value_free node)} (attach-Ensures h node others cs s w)
          (λ e u (short, live).
            rw
              (Frees-run (root_blocks u.root + others) u.memory (Frees-value_free node)
                (omega (arith, live)))
              (returns (short, refl)))

    -- What the callbacks for a value begin with, and what they go on with.
    pub make_Ensures :
        (Q : DomState → Type 0) (k : Position → Exec DomState (Unit {0})) (make : Exec Memory Value)
        (node : Value) (cs : List Context) (s : DomState)
        → Waits others cs s
        → blocks node ≡ 1
        → Ensures (Made node s.memory) (Kept s.memory) (make s.memory)
        → ((p : Position) (t : DomState)
            → Attached h node others cs p t
            → Ensures (λ _ u. Q u) (Fails others) (k p t))
        → Ensures (λ _ u. Q u) (Fails others) ((on_memory make >>= λ v. attach_or_free h v >>= k) s)
    make_Ensures Q k make node cs s w one made next =
        Ensures.bind {k = λ v. attach_or_free h v >>= k}
          (on_memory-Ensures s.root s.frames s.memory make made)
          (λ v t (n, (e, more), same).
            rw (e, same)
              (Ensures.bind {k = k}
                (attach_or_free-Ensures node cs (dom s.root s.frames n)
                  (Waits-more (blocks node) cs s n w more one))
                next (λ _ _ f. f)))
          (λ e t (n, (short, kept), same).
            (short, rw same (omega (arith, kept, Waits-live cs s w))))

    -- The node stands in the innermost context, whatever its position.
    abbrev pub Stands : Value → List Context → DomState → Type 0
    Stands node cs t = (p : Position) × Attached h node others cs p t

    pub dom_on_int-Ensures :
        (i : ℤ) (cs : List Context) (s : DomState)
        → allocator_check h ≡ ok tt
        → Waits others cs s
        → Ensures (λ _ t. Stands (int_value i) cs t) (Fails others) (dom_on_int h i s)
    unfolding dom_on_int int_new blocks
    dom_on_int-Ensures i cs s valid w =
        make_Ensures (Stands (int_value i) cs) (λ _. pure tt) (int_new h true i) (int_value i) cs s
          w refl (checked_Ensures h (int_value i) s.memory valid) (λ p t a. returns (p, a))

    pub attach_string-Ensures :
        (bs : Bytes) (cs : List Context) (s : DomState)
        → Waits others cs s
        → Ensures (λ _ t. Stands (string_value bs false) cs t) (Fails others) (attach_string h bs s)
    unfolding string_new_borrowed blocks
    attach_string-Ensures bs cs s w =
        make_Ensures (Stands (string_value bs false) cs) (λ _. pure tt)
          (string_new_borrowed h true bs) (string_value bs false) cs s w refl
          (value_alloc-Ensures h (string_value bs false) s.memory) (λ p t a. returns (p, a))
