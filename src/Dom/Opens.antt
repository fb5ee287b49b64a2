-- ===== src/Dom/Opens.antt =====
-- open_container leaves an empty container as the innermost one.
use bencode.Prelude.{
  ℕ, suc, ◌+◌, ◌≡◌, ◌≤◌, ◌<◌, ap, refl, none, some, Bool, true, false, List, [], ◌∷◌, length, arith,
  leb,
}
use bencode.Status.{ok}
use bencode.Exec.Ensures.{Ensures, returns}
use bencode.Memory.{Memory, Heap, allocator_check}
use bencode.Value.{Value, list_value, dict_value, no_elements, no_fields, blocks}
use bencode.Value.Build.{list_new, dict_new}
use bencode.Dom.{DomState, depth_cap, Position}
use bencode.Dom.Callbacks.{open_container, push_frame}
use bencode.Dom.Contexts.{Context, plug, frames_of}
use bencode.Dom.Change.{dom}
use bencode.Dom.Attach.{Waits, Fails, Attached, Reseats, at_top, at_list, at_dict, frame}
use bencode.Dom.Leaves.{make_Ensures}
use bencode.Value.Build.Nodes.{checked_Ensures}

-- `c` is the innermost open container, with no key pending.
abbrev pub Open : ℕ → List Context → Value → Bool → DomState → Type 0
Open others ds c expecting_key s =
    (m : Memory) × (s ≡ dom (some (plug ds c)) (frame ds expecting_key none ∷ frames_of ds) m)
    × (m.live ≡ blocks (plug ds c) + others)

abbrev pub empty : Bool → Value
empty false = list_value no_elements 0
empty true = dict_value no_fields 0

length-frames_of : (ds : List Context) → length (frames_of ds) ≡ length ds
length-frames_of [] = refl
length-frames_of (d ∷ ds) = ap suc (length-frames_of ds)

pub length-Reseats : {cs ds : List Context} → Reseats cs ds → length cs ≡ length ds
length-Reseats at_top = refl
length-Reseats (at_list _) = refl
length-Reseats (at_dict _ _) = refl

lt→leb : (a b : ℕ) → a < b → leb b a ≡ false
lt→leb a b h = ground arith

module _ (others : ℕ) (h : Heap) where
  abbrev pub Opened : Bool → List Context → DomState → Type 0
  Opened is_dict cs t =
      (ds : List Context) × Reseats cs ds × Open others ds (empty is_dict) is_dict t

  push_Ensures :
      (is_dict : Bool) (cs : List Context) (p : Position) (t : DomState)
      → length cs ≤ 256
      → Attached h (empty is_dict) others cs p t
      → Ensures
          (λ _ u. Opened is_dict cs u)
          (Fails others)
          (push_frame h (record { container = p; expecting_key = is_dict; pending_key = none }) t)
  push_Ensures is_dict cs p t shallow (ds, reseats, place, (m, same, live)) =
      let fits : leb depth_cap (length (frames_of ds)) ≡ false =
        lt→leb (length (frames_of ds)) depth_cap
          (omega (arith, length-frames_of ds, length-Reseats reseats)) in
      rw (same, fits, place) (returns (ds, reseats, (m, refl, live)))

  pub open_container-Ensures :
      (is_dict : Bool) (cs : List Context) (s : DomState)
      → allocator_check h ≡ ok tt
      → length cs ≤ 256
      → Waits others cs s
      → Ensures (λ _ t. Opened is_dict cs t) (Fails others) (open_container h is_dict s)
  unfolding open_container list_new dict_new blocks
  open_container-Ensures false cs s valid shallow w =
      make_Ensures others h (Opened false cs)
        (λ p. push_frame h (record { container = p; expecting_key = false; pending_key = none }))
        (list_new h true) (list_value no_elements 0) cs s w refl
        (checked_Ensures h (list_value no_elements 0) s.memory valid)
        (λ p t a. push_Ensures false cs p t shallow a)
  open_container-Ensures true cs s valid shallow w =
      make_Ensures others h (Opened true cs)
        (λ p. push_frame h (record { container = p; expecting_key = true; pending_key = none }))
        (dict_new h true) (dict_value no_fields 0) cs s w refl
        (checked_Ensures h (dict_value no_fields 0) s.memory valid)
        (λ p t a. push_Ensures true cs p t shallow a)
