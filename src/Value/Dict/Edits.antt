-- ===== src/Value/Dict/Edits.antt =====
-- What an insertion and a replacement do to the entries.
use mathlib.Core.Option.{some-injective}
use bencode.Prelude.{
  ℕ, zero, suc, ◌+◌, ◌≡◌, ◌≢◌, ◌↔◌, ◌⊎◌, inl, inr, refl, sym, ◌∙◌, Bytes, some, length, arith,
}
use bencode.KeyOrder.{Before}
use bencode.Memory.{block}
use bencode.Value.{Value, Fields, no_fields, field, count_fields, blocks, blocks_fields}
use bencode.Value.Dict.{key_at, value_at, insert_at, replace_at}
use bencode.Value.Dict.Search.{Precedes, IsOrdered, Below, Above}

-- The dictionary maps `k` to `v`.
abbrev pub Has : Fields → Bytes → Value → Type 0
Has no_fields k v = ⊥
Has (field j w fs) k v = ((j ≡ k) × (w ≡ v)) ⊎ Has fs k v

-- An entry for another key says nothing of `k`.
skip_entry : {j k : Bytes} {w v : Value} {H : Type 0} → k ≢ j → ((j ≡ k) × (w ≡ v)) ⊎ H → H
skip_entry n (inl (e, _)) = absurd (n (sym e))
skip_entry n (inr h) = h

map_rest :
    {j k : Bytes} {w v : Value} {H K : Type 0}
    → (H → K)
    → ((j ≡ k) × (w ≡ v)) ⊎ H
    → ((j ≡ k) × (w ≡ v)) ⊎ K
map_rest f (inl e) = inl e
map_rest f (inr h) = inr (f h)

module _ (key : Bytes) (child : Value) where
  -- `after` is `before` with `key` mapped to `child`.
  pub record IsUpdate (before after : Fields) : Type 0 where
    pub maps : Has after key child
    pub keeps : (k : Bytes) (v : Value) → k ≢ key → Has after k v ↔ Has before k v

  front : (fs : Fields) → IsUpdate fs (field key child fs)
  front fs = record { maps = inl (refl, refl); keeps = λ k v n. (skip_entry n, inr) }

  behind :
      (j : Bytes) (w : Value) {before after : Fields}
      → IsUpdate before after
      → IsUpdate (field j w before) (field j w after)
  behind j w {before} {after} u = record {
    maps = inr u.maps;
    keeps = λ k v n. (map_rest (u.keeps k v n).0, map_rest (u.keeps k v n).1);
  }

  pub insert_at-IsUpdate : (i : ℕ) (fs : Fields) → IsUpdate fs (insert_at i key child fs)
  insert_at-IsUpdate zero fs = front fs
  insert_at-IsUpdate (suc i) no_fields = front no_fields
  insert_at-IsUpdate (suc i) (field j w fs) = behind j w (insert_at-IsUpdate i fs)

  pub replace_at-IsUpdate :
      (i : ℕ) (fs : Fields) → key_at fs i ≡ some key → IsUpdate fs (replace_at i child fs)
  replace_at-IsUpdate i no_fields e = cc
  replace_at-IsUpdate zero (field j w fs) e =
      let same : j ≡ key = some-injective j key e in
      record {
        maps = inl (same, refl);
        keeps = λ k v n. (
          λ a. inr (skip_entry (λ q. n (q ∙ same)) a),
          λ a. inr (skip_entry (λ q. n (q ∙ same)) a),
        );
      }
  replace_at-IsUpdate (suc i) (field j w fs) e = behind j w (replace_at-IsUpdate i fs e)

  -- The order.
  insert_at-Precedes :
      (i : ℕ) (k : Bytes) (fs : Fields)
      → Precedes k fs
      → Before k key
      → Precedes k (insert_at i key child fs)
  insert_at-Precedes zero k fs p b = b
  insert_at-Precedes (suc i) k no_fields p b = b
  insert_at-Precedes (suc i) k (field j w fs) p b = p

  Above-Precedes : (fs : Fields) → Above fs key 0 → Precedes key fs
  Above-Precedes no_fields a = tt
  Above-Precedes (field j w fs) a = a 0 j (omega arith) refl

  pub insert_at-IsOrdered :
      (i : ℕ) (fs : Fields)
      → IsOrdered fs
      → Below fs key i
      → Above fs key i
      → IsOrdered (insert_at i key child fs)
  insert_at-IsOrdered zero fs o b a = (Above-Precedes fs a, o)
  insert_at-IsOrdered (suc i) no_fields o b a = (tt, tt)
  insert_at-IsOrdered (suc i) (field j w fs) (p, o) b a = (
    insert_at-Precedes i j fs p (b 0 j (omega arith) refl),
    insert_at-IsOrdered i fs o (λ n k h e. b (suc n) k (omega arith) e)
        (λ n k h e. a (suc n) k (omega arith) e),
  )

  replace_at-Precedes :
      (i : ℕ) (k : Bytes) (fs : Fields) → Precedes k fs → Precedes k (replace_at i child fs)
  replace_at-Precedes i k no_fields p = p
  replace_at-Precedes zero k (field j w fs) p = p
  replace_at-Precedes (suc i) k (field j w fs) p = p

  pub replace_at-IsOrdered :
      (i : ℕ) (fs : Fields) → IsOrdered fs → IsOrdered (replace_at i child fs)
  replace_at-IsOrdered i no_fields o = o
  replace_at-IsOrdered zero (field j w fs) o = o
  replace_at-IsOrdered (suc i) (field j w fs) (p, o) =
      (replace_at-Precedes i j fs p, replace_at-IsOrdered i fs o)

  -- The blocks and the count.
  pub blocks-insert_at :
      (i : ℕ) (fs : Fields)
      → blocks_fields (insert_at i key child fs)
        ≡ block (length key) + (blocks child + blocks_fields fs)
  unfolding blocks
  blocks-insert_at zero fs = refl
  blocks-insert_at (suc i) no_fields = refl
  blocks-insert_at (suc i) (field j w fs) = omega (arith, blocks-insert_at i fs)

  pub blocks-replace_at :
      (i : ℕ) (fs : Fields) (old : Value)
      → value_at fs i ≡ some old
      → blocks_fields (replace_at i child fs) + blocks old ≡ blocks_fields fs + blocks child
  unfolding blocks
  blocks-replace_at i no_fields old e = cc
  blocks-replace_at zero (field j w fs) old e = rw (some-injective w old e) (omega arith)
  blocks-replace_at (suc i) (field j w fs) old e = omega (arith, blocks-replace_at i fs old e)

  pub count-insert_at :
      (i : ℕ) (fs : Fields) → count_fields (insert_at i key child fs) ≡ suc (count_fields fs)
  count-insert_at zero fs = refl
  count-insert_at (suc i) no_fields = refl
  count-insert_at (suc i) (field j w fs) = omega (arith, count-insert_at i fs)

  pub count-replace_at :
      (i : ℕ) (fs : Fields) → count_fields (replace_at i child fs) ≡ count_fields fs
  count-replace_at i no_fields = refl
  count-replace_at zero (field j w fs) = refl
  count-replace_at (suc i) (field j w fs) = omega (arith, count-replace_at i fs)
