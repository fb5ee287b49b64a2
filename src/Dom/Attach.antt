-- ===== src/Dom/Attach.antt =====
-- Attaching a value to the innermost open container: it is put at the end, or the call fails for
-- want of memory and changes nothing.
use bencode.Prelude.{
  ℕ, ◌+◌, ◌≡◌, ◌≤◌, ◌<◌, ◌∙◌, ap, subst, refl, Bytes, Option, none, some, Bool, true, false, List,
  [], ◌∷◌, ◌++◌, length, arith,
}
use bencode.Prelude.Int.{size_max}
use bencode.Status.{Error, nomem}
use bencode.Exec.{pure, ◌>>=◌, ◌>>◌, or_else}
use bencode.Exec.Ensures
use bencode.Exec.Ensures.{Ensures, returns, raises}
use bencode.Memory.{Memory, Heap}
use bencode.Value.Last.{push_field, IsLast, count-push_field, Finds-last, Edit-last}
use bencode.Value.{
  Value, Elements, Fields, list_value, dict_value, count_elements, count_fields, blocks,
}
use bencode.Value.Build.{list_append}
use bencode.Value.Build.Append.{list_append-Ensures}
use bencode.Value.Dict.{dict_search, dict_set}
use bencode.Value.Dict.Search.{IsOrdered, dict_search-Finds}
use bencode.Value.Dict.Set.{dict_set-Ensures}
use bencode.Dom.{DomState, DomFrame, change, on_memory, reset_frame}
use bencode.Dom.Callbacks.{attach}
use bencode.Dom.Contexts.{
  Context, in_list, in_dict, plug, position, frames_of, around, blocks-plug, follow-plug,
}
use bencode.Dom.Change.{dom, on_memory-Ensures, change-Ensures}

abbrev pub frame : List Context → Bool → Option Bytes → DomFrame
frame cs expecting_key pending_key = record {
  container = position cs;
  expecting_key = expecting_key;
  pending_key = pending_key;
}

-- The innermost context is ready for its next value, and `others` blocks stand outside the tree.
abbrev pub Waits : ℕ → List Context → DomState → Type 0
Waits others [] s = (m : Memory) × (s ≡ dom none [] m) × (m.live ≡ others)
Waits others (in_list xs capacity ∷ cs) s =
    (m : Memory) × (s
      ≡ dom (some (plug cs (list_value xs capacity))) (frame cs false none ∷ frames_of cs) m)
    × (m.live ≡ blocks (plug cs (list_value xs capacity)) + others)
    × (capacity ≤ size_max)
Waits others (in_dict fs k capacity ∷ cs) s =
    (m : Memory) × (s
      ≡ dom (some (plug cs (dict_value fs capacity))) (frame cs false (some k) ∷ frames_of cs) m)
    × (m.live ≡ blocks (plug cs (dict_value fs capacity)) + others)
    × (capacity ≤ size_max)
    × (count_fields fs ≤ capacity)
    × IsOrdered fs
    × IsLast fs k

-- `v` stands in the innermost context.
abbrev pub Filled : ℕ → List Context → Value → DomState → Type 0
Filled others cs v s =
    (m : Memory) × (s ≡ dom (some (plug cs v)) (frames_of cs) m)
    × (m.live ≡ blocks (plug cs v) + others)

abbrev pub root_blocks : Option Value → ℕ
root_blocks none = 0
root_blocks (some r) = blocks r

abbrev pub Fails : ℕ → Error → DomState → Type 0
Fails others e s = (e ≡ nomem) × (s.memory.live ≡ root_blocks s.root + others)

-- The array of the innermost container may have grown.
pub data Reseats : List Context → List Context → Type 0 where
  at_top : Reseats [] []
  at_list :
      {xs : Elements} {c d : ℕ} {cs : List Context}
      → d ≤ size_max
      → Reseats (in_list xs c ∷ cs) (in_list xs d ∷ cs)
  at_dict :
      {fs : Fields} {k : Bytes} {c d : ℕ} {cs : List Context}
      → d ≤ size_max
      → count_fields fs < d
      → Reseats (in_dict fs k c ∷ cs) (in_dict fs k d ∷ cs)

module _ (h : Heap) (v : Value) (others : ℕ) where
  abbrev pub Attached : List Context → List ℕ → DomState → Type 0
  Attached cs p s = (ds : List Context) × Reseats cs ds × (p ≡ position ds) × Filled others ds v s

  -- The result of attach_to, for what the head of the contexts becomes.
  abbrev Placed : ℕ → (ℕ → Context) → (ℕ → Type 0) → List Context → ℕ → DomState → Type 0
  Placed place head Ok cs i s =
      (d : ℕ) × (d ≤ size_max) × Ok d × (i ≡ place) × Filled others (head d ∷ cs) v s

  list_Ensures :
      (xs : Elements) (c : ℕ) (cs : List Context) (m : Memory)
      → m.live ≡ blocks (plug cs (list_value xs c)) + (blocks v + others)
      → c ≤ size_max
      → Ensures
          (Placed (count_elements xs) (in_list xs) (λ _. Unit) cs)
          (Fails (blocks v + others))
          ((change (position cs) (λ w. list_append h (some w) (some v)) >> pure (count_elements xs))
            (dom (some (plug cs (list_value xs c))) (frame cs false none ∷ frames_of cs) m))
  list_Ensures xs c cs m live small =
      Ensures.bind {k = λ _. pure (count_elements xs)}
        (change-Ensures cs (list_value xs c) (λ w. list_append h (some w) (some v))
          (frame cs false none ∷ frames_of cs) m
          (list_append-Ensures h xs c v (around cs + others) m small
            (omega (arith, live, blocks-plug cs (list_value xs c)))))
        (λ _ t (w, n, a, same).
          let e : n.live ≡ blocks (plug cs w) + others = omega (arith, a.owns, blocks-plug cs w) in
          returns (
            a.new_cap,
            a.sized,
            tt,
            refl,
            (
              n,
              same ∙ ap (λ x. dom (some (plug cs x)) (frame cs false none ∷ frames_of cs) n) a.same,
              subst (λ x. n.live ≡ blocks (plug cs x) + others) a.same e,
            ),
          ))
        (λ e t (n, (short, kept), same). (short, rw same (omega (arith, kept, live))))

  dict_Ensures :
      (fs : Fields) (k : Bytes) (c : ℕ) (cs : List Context) (m : Memory)
      → m.live ≡ blocks (plug cs (dict_value fs c)) + (blocks v + others)
      → c ≤ size_max
      → count_fields fs ≤ c
      → IsOrdered fs
      → IsLast fs k
      → Ensures
          (Placed (count_fields fs) (in_dict fs k) (λ d. count_fields fs < d) cs)
          (Fails (blocks v + others))
          ((on_memory (dict_search fs k) >>= λ place.
              or_else
                (change (position cs) (λ w. dict_set h (some w) (some k) (length k) (some v)))
                reset_frame
              >> (reset_frame >> pure place.index))
            (dom (some (plug cs (dict_value fs c))) (frame cs false (some k) ∷ frames_of cs) m))
  dict_Ensures fs k c cs m live small room ordered last =
      Ensures.bind
        {k = λ place.
          or_else (change (position cs) (λ w. dict_set h (some w) (some k) (length k) (some v)))
            reset_frame
          >> (reset_frame >> pure place.index)}
        (on_memory-Ensures (some (plug cs (dict_value fs c)))
          (frame cs false (some k) ∷ frames_of cs) m (dict_search fs k)
          (dict_search-Finds fs k m ordered (omega arith)))
        (λ place t (n, (finds, keep), same).
          rw (same, keep)
            (Ensures.bind {k = λ _. reset_frame >> pure place.index}
              (Ensures.clean {c = reset_frame}
                (change-Ensures cs (dict_value fs c)
                  (λ w. dict_set h (some w) (some k) (length k) (some v))
                  (frame cs false (some k) ∷ frames_of cs) m
                  (dict_set-Ensures fs k v (around cs + others) h c m (length k) ordered room small
                    (omega (arith, live, blocks-plug cs (dict_value fs c)))))
                (λ e u (o, (short, kept), same').
                  rw same' (returns (short, omega (arith, kept, live)))))
              (λ _ u (w, o, a, same').
                let gs = Edit-last fs k v (around cs + others) a.fields last a.edit in
                let x : w ≡ dict_value (push_field k v fs) a.new_cap =
                  a.same ∙ ap (λ g. dict_value g a.new_cap) gs in
                let e : o.live ≡ blocks (plug cs w) + others =
                  omega (arith, a.owns, blocks-plug cs w) in
                let large : count_fields fs < a.new_cap =
                  omega (arith, a.room, ap count_fields gs, count-push_field fs k v) in
                rw same' (
                  returns (
                    a.new_cap,
                    a.sized,
                    large,
                    Finds-last fs k place last finds,
                    (
                      o,
                      ap (λ y. dom (some (plug cs y)) (frame cs true none ∷ frames_of cs) o) x,
                      subst (λ y. o.live ≡ blocks (plug cs y) + others) x e,
                    ),
                  )))
              (λ _ _ f. f)))
        (λ e t (n, never, _). absurd never)

  pub attach-Ensures :
      (cs : List Context) (s : DomState)
      → Waits (blocks v + others) cs s
      → Ensures (Attached cs) (Fails (blocks v + others)) (attach h v s)
  unfolding attach
  attach-Ensures [] s (m, same, live) = rw same (returns ([], at_top, refl, (m, refl, live)))
  attach-Ensures (in_list xs c ∷ cs) s (m, same, live, small) =
      rw (same, follow-plug cs (list_value xs c))
        (Ensures.bind {k = λ i. pure (position cs ++ i ∷ [])} (list_Ensures xs c cs m live small)
          (λ i t (d, below, _, e, filled).
            returns (in_list xs d ∷ cs, at_list below, ap (λ j. position cs ++ j ∷ []) e, filled))
          (λ _ _ f. f))
  attach-Ensures (in_dict fs k c ∷ cs) s (m, same, live, small, room, ordered, last) =
      rw (same, follow-plug cs (dict_value fs c))
        (Ensures.bind {k = λ i. pure (position cs ++ i ∷ [])}
          (dict_Ensures fs k c cs m live small room ordered last)
          (λ i t (d, below, large, e, filled).
            returns
              (in_dict fs k d ∷ cs, at_dict below large, ap (λ j. position cs ++ j ∷ []) e, filled))
          (λ _ _ f. f))
