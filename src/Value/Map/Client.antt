-- ===== src/Value/Map/Client.antt =====
-- What a client of a dictionary can observe.
use bencode.Prelude.{
  ℕ, ◌+◌, ◌≤◌, ◌≡◌, refl, ap, ap₂, Bytes, Option, some, List, [], ◌∷◌, length, arith,
}
use bencode.Prelude.Int.{size_max}
use bencode.Status.{nomem}
use bencode.Exec.{Exec, pure, ◌>>=◌}
use bencode.Exec.Ensures
use bencode.Exec.Ensures.{Ensures, returns}
use bencode.Memory.{Memory, Heap}
use bencode.Value.{Value, Fields, dict_value, count_fields, blocks}
use bencode.Value.Dict.{dict_set}
use bencode.Value.Dict.Search.{IsOrdered}
use bencode.Value.Dict.Set.{dict_set-Ensures}
use bencode.Value.Access.{dict_get}
use bencode.Value.Access.Get.{dict_get-Answers}
use bencode.Value.Map.{find, update, find-update, Answers-find}

pub data Request : Type 0 where
  put : Bytes → Value → Request
  get : Bytes → Request

-- What the lookups return, and the dictionary in the end.
abbrev pub Observed : Type 0
Observed = List (Option Value) × Value

abbrev pub also : Option Value → Observed → Observed
also o (os, d) = (o ∷ os, d)

module _ (h : Heap) where
  -- The requests in order, up to the first that fails.
  unfoldable pub run : List Request → Value → Exec Memory Observed
  run [] d = pure ([], d)
  run (put k v ∷ rs) d = dict_set h (some d) (some k) (length k) (some v) >>= run rs
  run (get k ∷ rs) d =
      dict_get (some d) (some k) (length k) >>= λ o. run rs d >>= λ s. pure (also o s)

-- The same requests on a function.
unfoldable pub replay : List Request → (Bytes → Option Value) → List (Option Value)
replay [] f = []
replay (put k v ∷ rs) f = replay rs (update f k v)
replay (get k ∷ rs) f = f k ∷ replay rs f

-- The blocks of the values to be stored.
abbrev pub offered : List Request → ℕ
offered [] = 0
offered (put k v ∷ rs) = blocks v + offered rs
offered (get k ∷ rs) = offered rs

-- Keys ascend, and the entries stand within the array.
pub record IsStored (fs : Fields) (capacity : ℕ) : Type 0 where
  pub ordered : IsOrdered fs
  pub room : count_fields fs ≤ capacity
  pub sized : capacity ≤ size_max

-- The lookups returned `answers`, and the heap holds the dictionary and the rest.
pub record Refines (answers : List (Option Value)) (others : ℕ) (o : Observed) (t : Memory)
    : Type 0 where
  pub fields : Fields
  pub capacity : ℕ
  pub same : o.1 ≡ dict_value fields capacity
  pub stored : IsStored fields capacity
  pub answered : o.0 ≡ answers
  pub owns : t.live ≡ blocks o.1 + others

module _ (h : Heap) (others : ℕ) where
  -- A dictionary refines a map: for any sequence of bencode_dict_set and bencode_dict_get on a
  -- dictionary with ascending keys and its entries within its array, the values to be stored being
  -- live, every call returns. If none fails, the lookups return what they return of a function
  -- from keys to values that each bencode_dict_set changes at its key, the dictionary is as before
  -- in order and within its array, and the live blocks are its own and the others. The only error
  -- is BENCODE_ERR_NOMEM.
  pub run-Refines :
      (rs : List Request) (fs : Fields) (capacity : ℕ) (m : Memory)
      → IsStored fs capacity
      → m.live ≡ blocks (dict_value fs capacity) + (offered rs + others)
      → Ensures
          (Refines (replay rs (find fs)) others)
          (λ e _. e ≡ nomem)
          (run h rs (dict_value fs capacity) m)
  unfolding run replay
  run-Refines [] fs capacity m stored owns = returns (record {
    fields = fs;
    capacity = capacity;
    same = refl;
    stored = stored;
    answered = refl;
    owns = omega (arith, owns);
  })
  run-Refines (put k v ∷ rs) fs capacity m stored owns =
      Ensures.bind {k = run h rs}
        (dict_set-Ensures fs k v (offered rs + others) h capacity m (length k) stored.ordered
          stored.room stored.sized (omega (arith, owns)))
        (λ after t u.
          rw (u.same, ← find-update fs k v (offered rs + others) after t u stored.ordered)
            (run-Refines rs u.fields u.new_cap t
              (record { ordered = u.ordered; room = u.room; sized = u.sized })
              (omega (arith, u.owns, ap blocks u.same))))
        (λ _ _ (short, _). short)
  run-Refines (get k ∷ rs) fs capacity m stored owns =
      Ensures.bind {k = λ o. run h rs (dict_value fs capacity) >>= λ s. pure (also o s)}
        (dict_get-Answers fs capacity k m (length k) stored.ordered
          (omega (arith, stored.room, stored.sized)))
        (λ o t (a, same). rw (same) (
          Ensures.bind {k = λ s. pure (also o s)} (run-Refines rs fs capacity m stored owns)
            (λ s u r. returns (record {
              fields = r.fields;
              capacity = r.capacity;
              same = r.same;
              stored = r.stored;
              answered = ap₂ (λ x y. x ∷ y) (Answers-find fs k o stored.ordered a) r.answered;
              owns = r.owns;
            }))
            (λ _ _ short. short)))
        (λ _ _ never. absurd never)
