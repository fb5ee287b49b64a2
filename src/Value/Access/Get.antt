-- ===== src/Value/Access/Get.antt =====
-- bencode_dict_get finds what bencode_dict_set stored.
use mathlib.Core.Option.{some-injective}
use bencode.Prelude.{
  ℕ, zero, suc, ◌+◌, ◌≤◌, ◌≡◌, inl, inr, refl, sym, ap, ◌∙◌, subst, Bytes, Option, none, some, ltb,
  ltb→lt, ltb→le, Bool-cases, arith,
}
use bencode.Prelude.Int.{size_max}
use bencode.KeyOrder.Laws.{Before-irrefl}
use bencode.Exec.Ensures
use bencode.Exec.Ensures.{Ensures, returns, raises}
use bencode.Memory.{Memory, Heap}
use bencode.Value.{Value, Fields, dict_value, no_fields, field, count_fields, blocks}
use bencode.Value.Build.Growth.{Kept}
use bencode.Value.Dict.{key_at, value_at, Place, dict_set}
use bencode.Value.Dict.Search.{
  IsOrdered, Precedes, Precedes-key_at, Below, Above, Finds, found, missing, dict_search-Finds,
}
use bencode.Value.Dict.Edits.{Has}
use bencode.Value.Dict.Set.{Updated, dict_set-Ensures}
use bencode.Value.Access.{dict_get, read_place}

Has-key_at : (fs : Fields) (k : Bytes) (v : Value) → Has fs k v → (i : ℕ) × (key_at fs i ≡ some k)
Has-key_at no_fields k v h = absurd h
Has-key_at (field j w fs) k v (inl (e, _)) = (0, ap some e)
Has-key_at (field j w fs) k v (inr h) = let (i, e) = Has-key_at fs k v h in (suc i, e)

at_Has :
    (fs : Fields) (i : ℕ) (k : Bytes)
    → key_at fs i ≡ some k
    → (v : Value) × (value_at fs i ≡ some v) × Has fs k v
at_Has no_fields i k e = cc
at_Has (field j w fs) zero k e = (w, refl, inl (some-injective j k e, refl))
at_Has (field j w fs) (suc i) k e = let (v, f, h) = at_Has fs i k e in (v, f, inr h)

-- The key does not occur.
missing_Has :
    (fs : Fields) (key : Bytes) (i : ℕ)
    → Below fs key i
    → Above fs key i
    → (v : Value) → Has fs key v
    → ⊥
missing_Has fs key i b a v h =
    let (n, e) = Has-key_at fs key v h in
    elim (Bool-cases (ltb n i)) [
      | inl less ↦ Before-irrefl key (b n key (ltb→lt n i less) e)
      | inr more ↦ Before-irrefl key (a n key (ltb→le n i more) e)
    ]

-- A key that every key of the entries follows is not among them.
Precedes-Has : (fs : Fields) (k : Bytes) (v : Value) → Precedes k fs → IsOrdered fs → Has fs k v → ⊥
Precedes-Has fs k v p o h =
    let (n, e) = Has-key_at fs k v h in Before-irrefl k (Precedes-key_at k fs p o n k e)

pub Has-unique :
    (fs : Fields) (k : Bytes) (v w : Value) → IsOrdered fs → Has fs k v → Has fs k w → v ≡ w
Has-unique no_fields k v w o g h = absurd g
Has-unique (field j u fs) k v w (p, o) (inl (e, a)) (inl (f, b)) = sym a ∙ b
Has-unique (field j u fs) k v w (p, o) (inl (e, a)) (inr h) =
    absurd (Precedes-Has fs j w p o (subst (λ x. Has fs x w) (sym e) h))
Has-unique (field j u fs) k v w (p, o) (inr g) (inl (f, b)) =
    absurd (Precedes-Has fs j v p o (subst (λ x. Has fs x v) (sym f) g))
Has-unique (field j u fs) k v w (p, o) (inr g) (inr h) = Has-unique fs k v w o g h

-- What a lookup answers.
abbrev pub Answers : Fields → Bytes → Option Value → Type 0
Answers fs key none = (v : Value) → Has fs key v → ⊥
Answers fs key (some v) = Has fs key v

module _ (fs : Fields) (capacity : ℕ) (key : Bytes) (m : Memory) where
  place_Ensures :
      (place : Place)
      → Finds fs key place
      → Ensures (λ o t. Answers fs key o × (t ≡ m)) (λ _ _. ⊥) (read_place fs place m)
  place_Ensures _ (found {i} e) = let (v, f, h) = at_Has fs i key e in rw f (returns (h, refl))
  place_Ensures _ (missing {i} _ b a) = returns (missing_Has fs key i b a, refl)

  -- On sorted entries, a lookup returns the value under the key, or NULL if there is none.
  pub dict_get-Answers :
      (key_len : ℕ)
      → IsOrdered fs
      → count_fields fs ≤ size_max
      → Ensures
          (λ o t. Answers fs key o × (t ≡ m))
          (λ _ _. ⊥)
          (dict_get (some (dict_value fs capacity)) (some key) key_len m)
  unfolding dict_get
  dict_get-Answers key_len o small =
      Ensures.bind {k = read_place fs} (dict_search-Finds fs key m o small)
        (λ place t (finds, same). rw same (place_Ensures place finds)) (λ e t no. no)

-- The answer that is `child`, where the key maps to it.
pub Answers-some :
    (fs : Fields) (key : Bytes) (child : Value)
    → IsOrdered fs
    → Has fs key child
    → (o : Option Value) → Answers fs key o
    → o ≡ some child
Answers-some fs key child o maps none a = absurd (a child maps)
Answers-some fs key child o maps (some v) a = ap some (Has-unique fs key v child o a maps)

module _ (h : Heap) (fs : Fields) (capacity : ℕ) (key : Bytes) (child : Value) (others : ℕ) where
  -- The child is what a lookup of the key in `after` returns.
  abbrev pub GetsChild : Value → Memory → Type 0
  GetsChild after t =
      (key_len : ℕ)
      → Ensures (λ o u. (o ≡ some child) × (u ≡ t)) (λ _ _. ⊥)
          (dict_get (some after) (some key) key_len t)

  after_update :
      (after : Value) (t : Memory) → Updated fs key child others after t → GetsChild after t
  after_update after t u key_len = rw u.same (
      Ensures.mono
        (dict_get-Answers u.fields u.new_cap key t key_len u.ordered
          (omega (arith, u.room, u.sized)))
        (λ o w (a, same). (Answers-some u.fields key child u.ordered u.update.maps o a, same))
        (λ _ _ no. no))

  -- After bencode_dict_set succeeded, bencode_dict_get returns the child that was set.
  pub dict_get-dict_set :
      (m : Memory) (key_len : ℕ)
      → IsOrdered fs
      → count_fields fs ≤ capacity
      → capacity ≤ size_max
      → m.live ≡ blocks (dict_value fs capacity) + (blocks child + others)
      → Ensures GetsChild
          (Kept m)
          (dict_set h (some (dict_value fs capacity)) (some key) key_len (some child) m)
  dict_get-dict_set m key_len o room small owns =
      Ensures.mono (dict_set-Ensures fs key child others h capacity m key_len o room small owns)
        after_update (λ _ _ k. k)
