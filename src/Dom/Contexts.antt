-- ===== src/Dom/Contexts.antt =====
-- The containers around an open one: each is a list or a dictionary whose last child stands next
-- inside.
use mathlib.Core.Path.{fun_ext}
use bencode.Prelude.{
  ℕ, suc, ◌+◌, ◌≡◌, refl, sym, ap, ◌∙◌, Bytes, Option, none, some, Bool, List, [], ◌∷◌, ◌++◌,
  length, true, false, arith,
}
use bencode.Status.{ok, err}
use bencode.Exec.{Run, Exec, returned, out_of_bounds, out_of_fuel, pure, and_then, ◌>>=◌}
use bencode.Memory.{Memory, block}
use bencode.Value.Last.{push_field, blocks-push_field}
use bencode.Value.Build.Append.{blocks-push_element}
use bencode.Value.{
  Value, Elements, Fields, int_value, string_value, list_value, dict_value, no_elements, element,
  no_fields, field, count_elements, count_fields, blocks, blocks_elements, blocks_fields,
}
use bencode.Value.Build.{push_element}
use bencode.Dom.{
  Position, follow, child_at, nth_element, nth_field, update_at, update_element, update_field,
  DomFrame,
}

pub data Context : Type 0 where
  in_list : Elements → ℕ → Context
  in_dict : Fields → Bytes → ℕ → Context

abbrev pub fill : Context → Value → Value
fill (in_list xs capacity) c = list_value (push_element xs c) capacity
fill (in_dict fs k capacity) c = dict_value (push_field k c fs) capacity

abbrev pub place : Context → ℕ
place (in_list xs capacity) = count_elements xs
place (in_dict fs k capacity) = count_fields fs

-- The innermost context first.
abbrev pub plug : List Context → Value → Value
plug [] c = c
plug (x ∷ xs) c = plug xs (fill x c)

abbrev pub position : List Context → Position
position [] = []
position (x ∷ xs) = position xs ++ place x ∷ []

abbrev pub is_dict : Context → Bool
is_dict (in_list xs capacity) = false
is_dict (in_dict fs k capacity) = true

-- The frames of the contexts, none of which has a key pending.
abbrev pub frames_of : List Context → List DomFrame
frames_of [] = []
frames_of (x ∷ xs) =
    record { container = position xs; expecting_key = is_dict x; pending_key = none } ∷ frames_of xs

-- The blocks of a context itself.
unfoldable pub own : Context → ℕ
unfolding blocks
own (in_list xs capacity) = suc (blocks_elements xs + block capacity)
own (in_dict fs k capacity) = suc (block (length k) + blocks_fields fs + block capacity)

abbrev pub around : List Context → ℕ
around [] = 0
around (x ∷ xs) = own x + around xs

blocks-fill : (x : Context) (c : Value) → blocks (fill x c) ≡ own x + blocks c
unfolding blocks own
blocks-fill (in_list xs capacity) c = omega (arith, blocks-push_element xs c)
blocks-fill (in_dict fs k capacity) c = omega (arith, blocks-push_field fs k c)

pub blocks-plug : (xs : List Context) (c : Value) → blocks (plug xs c) ≡ around xs + blocks c
blocks-plug [] c = omega arith
blocks-plug (x ∷ xs) c = omega (arith, blocks-plug xs (fill x c), blocks-fill x c)

-- What stands at the position of the hole.
nth-push_element :
    (xs : Elements) (c : Value) → nth_element (push_element xs c) (count_elements xs) ≡ some c
nth-push_element no_elements c = refl
nth-push_element (element v xs) c = nth-push_element xs c

nth-push_field :
    (fs : Fields) (k : Bytes) (c : Value) → nth_field (push_field k c fs) (count_fields fs) ≡ some c
nth-push_field no_fields k c = refl
nth-push_field (field j v fs) k c = nth-push_field fs k c

child-fill : (x : Context) (c : Value) → child_at (place x) (fill x c) ≡ some c
child-fill (in_list xs capacity) c = nth-push_element xs c
child-fill (in_dict fs k capacity) c = nth-push_field fs k c

follow_nil : (o : Option Value) → follow [] o ≡ o
follow_nil none = refl
follow_nil (some v) = refl

follow-none : (p : Position) → follow p none ≡ none
follow-none [] = refl
follow-none (i ∷ p) = refl

follow-append : (p q : Position) (o : Option Value) → follow (p ++ q) o ≡ follow q (follow p o)
follow-append [] q none = refl
follow-append [] q (some v) = refl
follow-append (i ∷ p) q none = sym (follow-none q)
follow-append (i ∷ p) q (some v) = follow-append p q (child_at i v)

pub follow-plug : (xs : List Context) (c : Value) → follow (position xs) (some (plug xs c)) ≡ some c
follow-plug [] c = refl
follow-plug (x ∷ xs) c =
    follow-append (position xs) (place x ∷ []) (some (plug xs (fill x c)))
    ∙ ap (follow (place x ∷ [])) (follow-plug xs (fill x c))
    ∙ follow_nil (child_at (place x) (fill x c))
    ∙ child-fill x c

-- A call on what stands at the position of the hole.
and_then_assoc :
    {A B C : Type 0} (r : Run Memory A) (k : A → Exec Memory B) (l : B → Exec Memory C)
    → and_then (and_then r k) l ≡ and_then r (λ a. k a >>= l)
and_then_assoc (returned (ok a) s) k l = refl
and_then_assoc (returned (err e) s) k l = refl
and_then_assoc out_of_bounds k l = refl
and_then_assoc out_of_fuel k l = refl

and_then-pure : {A : Type 0} (r : Run Memory A) → and_then r pure ≡ r
and_then-pure (returned (ok a) s) = refl
and_then-pure (returned (err e) s) = refl
and_then-pure out_of_bounds = refl
and_then-pure out_of_fuel = refl

module _ (f : Value → Exec Memory Value) where
  update_element_last :
      (xs : Elements) (c : Value) (m : Memory)
      → update_element (count_elements xs) f (push_element xs c) m
        ≡ and_then (f c m) (λ w. pure (push_element xs w))
  update_element_last no_elements c m = refl
  update_element_last (element v xs) c m =
      rw (update_element_last xs c m)
        (and_then_assoc (f c m) (λ w. pure (push_element xs w)) (λ ys. pure (element v ys)))

  update_field_last :
      (fs : Fields) (k : Bytes) (c : Value) (m : Memory)
      → update_field (count_fields fs) f (push_field k c fs) m
        ≡ and_then (f c m) (λ w. pure (push_field k w fs))
  update_field_last no_fields k c m = refl
  update_field_last (field j v fs) k c m =
      rw (update_field_last fs k c m)
        (and_then_assoc (f c m) (λ w. pure (push_field k w fs)) (λ gs. pure (field j v gs)))

  update-fill :
      (x : Context) (c : Value) (m : Memory)
      → update_at (place x ∷ []) f (fill x c) m ≡ and_then (f c m) (λ w. pure (fill x w))
  update-fill (in_list xs capacity) c m =
      ap (λ r. and_then r (λ ys. pure (list_value ys capacity))) (update_element_last xs c m)
      ∙ and_then_assoc (f c m) (λ w. pure (push_element xs w)) (λ ys. pure (list_value ys capacity))
  update-fill (in_dict fs k capacity) c m =
      ap (λ r. and_then r (λ gs. pure (dict_value gs capacity))) (update_field_last fs k c m)
      ∙ and_then_assoc (f c m) (λ w. pure (push_field k w fs)) (λ gs. pure (dict_value gs capacity))

update_cons :
    (i : ℕ) (p q : Position) (f : Value → Exec Memory Value)
    → update_at (p ++ q) f ≡ update_at p (update_at q f)
    → (v : Value) → update_at (i ∷ (p ++ q)) f v ≡ update_at (i ∷ p) (update_at q f) v
update_cons i p q f e (list_value xs capacity) =
    ap (λ g. update_element i g xs >>= λ ys. pure (list_value ys capacity)) e
update_cons i p q f e (dict_value fs capacity) =
    ap (λ g. update_field i g fs >>= λ gs. pure (dict_value gs capacity)) e
update_cons i p q f e (int_value n) = refl
update_cons i p q f e (string_value bs owned) = refl

update-append :
    (p q : Position) (f : Value → Exec Memory Value)
    → update_at (p ++ q) f ≡ update_at p (update_at q f)
update-append [] q f = refl
update-append (i ∷ p) q f = fun_ext (update_cons i p q f (update-append p q f))

pub update-plug :
    (xs : List Context) (f : Value → Exec Memory Value) (c : Value) (m : Memory)
    → update_at (position xs) f (plug xs c) m ≡ and_then (f c m) (λ w. pure (plug xs w))
update-plug [] f c m = sym (and_then-pure (f c m))
update-plug (x ∷ xs) f c m =
    ap (λ (u : Value → Exec Memory Value). u (plug xs (fill x c)) m)
      (update-append (position xs) (place x ∷ []) f)
    ∙ update-plug xs (update_at (place x ∷ []) f) (fill x c) m
    ∙ ap (λ r. and_then r (λ w. pure (plug xs w))) (update-fill f x c m)
    ∙ and_then_assoc (f c m) (λ w. pure (fill x w)) (λ w. pure (plug xs w))
