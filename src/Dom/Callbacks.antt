-- ===== src/Dom/Callbacks.antt =====
-- src/parse_dom.c: attach, the callbacks, and bencode_parse.
use bencode.Prelude.{
  ℕ, Bytes, Bool, true, false, not, ◌&&◌, Option, none, some, List, [], ◌∷◌, ◌++◌, leb, ◌==◌,
  if◌then◌else◌, length,
}
use bencode.Prelude.Int.{ℤ}
use bencode.Status.{
  Error, Status, ok, err, invalid_arg, nesting_too_deep, unexpected_byte, user_aborted,
}
use bencode.Exec.{
  Run, returned, out_of_bounds, out_of_fuel, Exec, pure, fail, fault, or_else, ◌>>=◌, ◌>>◌,
}
use bencode.Memory.{Memory, Heap, allocator_check}
use bencode.Value.{Value, list_value, dict_value, count_elements}
use bencode.Value.Build.{
  value_free, free_pointer, int_new, string_new_borrowed, list_new, dict_new, list_append,
}
use bencode.Value.Dict.{dict_search, dict_set}
use bencode.Sax.State.{Callbacks}
use bencode.Sax.Parse.{Buffer, size, parse_sax}
use bencode.Dom.{
  Position, follow, DomFrame, DomState, depth_cap, on_memory, set_root, change, reset_frame,
  key_length, key_bytes,
}

module _ (h : Heap) where
  -- Where a child stands after it was attached to the container; dict_set decides it by a search.
  abbrev attach_to : Option Value → DomFrame → Value → Exec DomState ℕ
  attach_to none f value = fault
  attach_to (some (list_value xs capacity)) f value = do
    change f.container (λ c. list_append h (some c) (some value))
    pure (count_elements xs)
  attach_to (some (dict_value fs capacity)) f value = do
    place ← on_memory (dict_search fs (key_bytes f.pending_key))
    or_else
        (change f.container
          (λ c. dict_set h (some c) f.pending_key (key_length f.pending_key) (some value)))
        reset_frame
    reset_frame
    pure place.index
  attach_to (some v) f value = reset_frame >> fail invalid_arg

  abbrev attach_at : List DomFrame → Value → Exec DomState Position
  attach_at [] value s = (set_root value >> pure []) s
  attach_at (f ∷ fs) value s =
      (attach_to (follow f.container s.root) f value >>= λ i. pure (f.container ++ i ∷ [])) s

  -- The result is the position of the value.
  unfoldable pub attach : Value → Exec DomState Position
  unfolding list_append dict_set
  attach value s = attach_at s.frames value s

  -- The node is freed where it could not be attached.
  abbrev pub attach_or_free : Value → Exec DomState Position
  attach_or_free node = or_else (attach node) (on_memory (value_free node))

  unfoldable pub dom_on_int : ℤ → Exec DomState (Unit {0})
  unfolding int_new attach value_free
  dom_on_int i = do node ← on_memory (int_new h true i); attach_or_free node; pure tt

  abbrev pub attach_string : Bytes → Exec DomState (Unit {0})
  attach_string bs = do
    node ← on_memory (string_new_borrowed h true bs)
    attach_or_free node
    pure tt

  -- In a dictionary, a string where a key is expected is kept for the next value.
  abbrev stash : DomFrame → List DomFrame → Option Value → Bytes → Exec DomState (Unit {0})
  stash f fs none bs = fault
  stash f fs (some (dict_value _ capacity)) bs =
      if f.expecting_key
      then (λ s.
          pure tt
            (record s { frames = record f { pending_key = some bs; expecting_key = false } ∷ fs }))
      else attach_string bs
  stash f fs (some v) bs = attach_string bs

  abbrev string_at : List DomFrame → Bytes → Exec DomState (Unit {0})
  string_at [] bs s = attach_string bs s
  string_at (f ∷ fs) bs s = stash f fs (follow f.container s.root) bs s

  unfoldable pub dom_on_string : Bytes → Exec DomState (Unit {0})
  unfolding string_new_borrowed attach value_free
  dom_on_string bs s = string_at s.frames bs s

  -- The write to frames[depth] is out of bounds where the test lets it through.
  abbrev pub push_frame : DomFrame → Exec DomState (Unit {0})
  push_frame f s =
      if leb depth_cap (length s.frames)
      then fail nesting_too_deep s
      else pure tt (record s { frames = f ∷ s.frames })

  unfoldable pub open_container : Bool → Exec DomState (Unit {0})
  unfolding list_new dict_new attach value_free
  open_container is_dict = do
    node ← on_memory (if is_dict then dict_new h true else list_new h true)
    position ← attach_or_free node
    push_frame (record { container = position; expecting_key = is_dict; pending_key = none })

  abbrev pop_frame : List DomFrame → List DomFrame
  pop_frame [] = []
  pop_frame (f ∷ fs) = fs

  -- dom_on_list_end and dom_on_dict_end, which are alike.
  abbrev pub close_container : Exec DomState (Unit {0})
  close_container s = pure tt (record s { frames = pop_frame s.frames })

-- `user` of the callbacks. An access out of bounds in a callback has no status, so it is kept here.
pub data DomUser : Type 0 where
  building : DomState → DomUser
  crashed starved : DomUser

abbrev pub outcome : Run DomState (Unit {0}) → Status × DomUser
outcome (returned r s) = (r, building s)
outcome out_of_bounds = (err user_aborted, crashed)
outcome out_of_fuel = (err user_aborted, starved)

abbrev pub as_callback : Exec DomState (Unit {0}) → DomUser → Status × DomUser
as_callback action (building s) = outcome (action s)
as_callback action crashed = (err user_aborted, crashed)
as_callback action starved = (err user_aborted, starved)

unfoldable pub dom_callbacks : Heap → Callbacks DomUser
unfolding dom_on_int dom_on_string open_container
dom_callbacks h = record {
  int_callback = some (λ i. as_callback (dom_on_int h i));
  string_callback = some (λ bs. as_callback (dom_on_string h bs));
  list_begin_callback = some (as_callback (open_container h false));
  list_end_callback = some (as_callback (close_container h));
  dict_begin_callback = some (as_callback (open_container h true));
  dict_end_callback = some (as_callback (close_container h));
}

-- `bencode_parse_options` less the allocator, which the heap holds; NULL is all 0.
pub record ParseOptions : Type 0 where
  pub max_depth : ℕ
  pub allow_trailing : Bool

abbrev pub default_options : ParseOptions
default_options = record { max_depth = 0; allow_trailing = false }

abbrev pub report : Error → ℕ → Run Memory (Unit {0}) → Run (Memory × ℕ) (Option Value)
report e consumed (returned _ m) = returned (err e) (m, consumed)
report e consumed out_of_bounds = out_of_bounds
report e consumed out_of_fuel = out_of_fuel

abbrev pub release : Error → DomState → ℕ → Run (Memory × ℕ) (Option Value)
release e s consumed = report e consumed (free_pointer s.root s.memory)

abbrev pub deliver_root : ℕ → Bool → Status → DomState → ℕ → Run (Memory × ℕ) (Option Value)
deliver_root input_size allow_trailing (err e) s consumed = release e s consumed
deliver_root input_size allow_trailing (ok _) s consumed =
    if not allow_trailing && not (consumed == input_size)
    then release unexpected_byte s consumed
    else returned (ok s.root) (s.memory, consumed)

abbrev pub conclude : ℕ → Bool → Run (DomUser × ℕ) (Unit {0}) → Run (Memory × ℕ) (Option Value)
conclude input_size allow_trailing (returned st (building s, consumed)) =
    deliver_root input_size allow_trailing st s consumed
conclude input_size allow_trailing (returned st (crashed, consumed)) = out_of_bounds
conclude input_size allow_trailing (returned st (starved, consumed)) = out_of_fuel
conclude input_size allow_trailing out_of_bounds = out_of_bounds
conclude input_size allow_trailing out_of_fuel = out_of_fuel

module _ (h : Heap) where
  abbrev pub checked : Status → Buffer → ParseOptions → Memory → Run (Memory × ℕ) (Option Value)
  checked (err e) input opts m = returned (err e) (m, 0)
  checked (ok _) input opts m = conclude (size input) opts.allow_trailing (
      parse_sax input (some (dom_callbacks h))
        (building (record { root = none; frames = []; memory = m })) opts.max_depth)

  -- bencode_parse: `out` says whether the result pointer is not NULL. The state is the memory and
  -- `*consumed`.
  unfoldable pub parse : Bool → Buffer → ParseOptions → Memory → Run (Memory × ℕ) (Option Value)
  unfolding allocator_check parse_sax dom_callbacks free_pointer
  parse out input opts m =
      if not out
      then returned (err invalid_arg) (m, 0)
      else checked (allocator_check h) input opts m
