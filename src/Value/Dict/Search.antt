-- ===== src/Value/Dict/Search.antt =====
-- The binary search of dict_search, on entries whose keys ascend.
use Prim.Native.Nat.{Ordering}
use mathlib.Core.Option.{some-injective}
use bencode.Prelude.{
  ℕ, zero, suc, ◌+◌, ◌-◌, ◌/◌, ◌≤◌, ◌<◌, ◌≡◌, refl, sym, ap, ◌∙◌, subst, Bytes, true, false, some,
  ltb, ltb→lt, ltb→le, Bool-cases, ◌⊎◌, inl, inr, arith,
}
use bencode.Prelude.Int.{size_max}
use bencode.Prelude.Word.{add64, sub64}
use bencode.KeyOrder.{bytes_cmp, Before, Compares}
use bencode.KeyOrder.Laws.{bytes_cmp-Compares, Before-trans}
use bencode.Exec.{Run}
use bencode.Exec.Ensures
use bencode.Exec.Ensures.{Ensures, returns, raises}
use bencode.Memory.{Memory}
use bencode.Value.{Fields, no_fields, field, count_fields}
use bencode.Value.Dict.{key_at, entry_cmp, Place, round_at, search_loop, dict_search}

pub lt_or_eq : (i j : ℕ) → i ≤ j → (i < j) ⊎ (i ≡ j)
lt_or_eq i j h = elim (Bool-cases (ltb i j)) [
  | inl less ↦ inl (ltb→lt i j less)
  | inr more ↦ inr (omega (arith, ltb→le i j more))
]

-- The keys ascend strictly.
abbrev pub Precedes : Bytes → Fields → Type 0
Precedes k no_fields = Unit
Precedes k (field j v fs) = Before k j

abbrev pub IsOrdered : Fields → Type 0
IsOrdered no_fields = Unit
IsOrdered (field k v fs) = Precedes k fs × IsOrdered fs

-- The comparison is that of the parser.
entry_cmp-Compares : (k key : Bytes) → Compares k key (entry_cmp k key)
unfolding entry_cmp
entry_cmp-Compares k key = unfold bytes_cmp in bytes_cmp-Compares k key

pub key_at_total :
    (fs : Fields) (i : ℕ) → i < count_fields fs → (k : Bytes) × (key_at fs i ≡ some k)
key_at_total no_fields i h = absurd omega arith
key_at_total (field k v fs) zero h = (k, refl)
key_at_total (field k v fs) (suc i) h = key_at_total fs i (omega arith)

key_at_none : (fs : Fields) (i : ℕ) (k : Bytes) → count_fields fs ≤ i → key_at fs i ≡ some k → ⊥
key_at_none no_fields i k h e = cc
key_at_none (field j v fs) zero k h e = omega arith
key_at_none (field j v fs) (suc i) k h e = key_at_none fs i k (omega arith) e

-- The midpoint does not wrap around.
middle : (lo hi : ℕ) → lo ≤ hi → hi ≤ size_max → add64 lo (sub64 hi lo / 2) ≡ lo + (hi - lo) / 2
middle lo hi h k = let e : sub64 hi lo ≡ hi - lo = omega arith in rw e (omega arith)

-- A key stands before every later one.
pub Precedes-key_at :
    (k : Bytes) (fs : Fields)
    → Precedes k fs
    → IsOrdered fs
    → (i : ℕ) (a : Bytes) → key_at fs i ≡ some a
    → Before k a
Precedes-key_at k no_fields h o i a e = cc
Precedes-key_at k (field j v fs) h (p, o) zero a e = subst (Before k) (some-injective j a e) h
Precedes-key_at k (field j v fs) h (p, o) (suc i) a e =
    Before-trans k j a h (Precedes-key_at j fs p o i a e)

key_at_ordered :
    (fs : Fields)
    → IsOrdered fs
    → (i j : ℕ) (a b : Bytes) → i < j
    → key_at fs i ≡ some a
    → key_at fs j ≡ some b
    → Before a b
key_at_ordered no_fields o i j a b h e f = cc
key_at_ordered (field k v fs) o i zero a b h e f = absurd omega arith
key_at_ordered (field k v fs) (p, o) zero (suc j) a b h e f =
    subst (λ x. Before x b) (some-injective k a e) (Precedes-key_at k fs p o j b f)
key_at_ordered (field k v fs) (p, o) (suc i) (suc j) a b h e f =
    key_at_ordered fs o i j a b (omega arith) e f

module _ (fs : Fields) (key : Bytes) where
  -- The keys on [0, lo) stand before the key sought, and those from `hi` on behind it.
  abbrev pub Below : ℕ → Type 0
  Below lo = (i : ℕ) (k : Bytes) → i < lo → key_at fs i ≡ some k → Before k key

  abbrev pub Above : ℕ → Type 0
  Above hi = (i : ℕ) (k : Bytes) → hi ≤ i → key_at fs i ≡ some k → Before key k

  -- Where the key is, or where it would have to be inserted.
  pub data Finds : Place → Type 0 where
    found : {i : ℕ} → key_at fs i ≡ some key → Finds (record { index = i; matches = true })
    missing :
        {i : ℕ}
        → i ≤ count_fields fs
        → Below i
        → Above i
        → Finds (record { index = i; matches = false })

  abbrev pub Searches : Memory → Run Memory Place → Type 0
  Searches m r = Ensures (λ place t. Finds place × (t ≡ m)) (λ _ _. ⊥) r

  Below-key_at :
      IsOrdered fs → (mid : ℕ) (k : Bytes) → key_at fs mid ≡ some k → Before k key → Below (mid + 1)
  Below-key_at o mid k e b i j h f = elim (lt_or_eq i mid (omega arith)) [
    | inl less ↦ Before-trans j k key (key_at_ordered fs o i mid j k less f e) b
    | inr same ↦
        subst (λ x. Before x key) (some-injective k j (sym e ∙ ap (key_at fs) (sym same) ∙ f)) b
  ]

  Above-key_at :
      IsOrdered fs → (mid : ℕ) (k : Bytes) → key_at fs mid ≡ some k → Before key k → Above mid
  Above-key_at o mid k e b i j h f = elim (lt_or_eq mid i h) [
    | inl less ↦ Before-trans key k j b (key_at_ordered fs o mid i k j less e f)
    | inr same ↦ subst (λ x. Before key x) (some-injective k j (sym e ∙ ap (key_at fs) same ∙ f)) b
  ]

  round-Searches :
      (o : Ordering) (mid : ℕ) (k : Bytes) (m : Memory) {right left : Run Memory Place}
      → key_at fs mid ≡ some k
      → Compares k key o
      → (Before k key → Searches m right)
      → (Before key k → Searches m left)
      → Searches m (round_at (some o) mid right left m)
  round-Searches Ordering.eq mid k m e c r l = returns (found (e ∙ ap some c), refl)
  round-Searches Ordering.lt mid k m e c r l = r c
  round-Searches Ordering.gt mid k m e c r l = l c

  search_loop-Searches :
      (f lo hi : ℕ) (m : Memory)
      → IsOrdered fs
      → count_fields fs ≤ size_max
      → hi - lo < f
      → lo ≤ hi
      → hi ≤ count_fields fs
      → Below lo
      → Above hi
      → Searches m (search_loop f fs key lo hi m)
  unfolding search_loop
  search_loop-Searches zero lo hi m o small fuel h le b a = absurd omega arith
  search_loop-Searches (suc f) lo hi m o small fuel h le b a =
      Ensures.branch (ltb lo hi)
        (λ t.
          let lt : lo < hi = ltb→lt lo hi t in
          let exact : add64 lo (sub64 hi lo / 2) ≡ lo + (hi - lo) / 2 =
            middle lo hi h (omega arith) in
          let next : add64 (lo + (hi - lo) / 2) 1 ≡ lo + (hi - lo) / 2 + 1 = omega arith in
          let (k, e) = key_at_total fs (lo + (hi - lo) / 2) (omega arith) in
          rw (exact, next, e)
            (round-Searches (entry_cmp k key) (lo + (hi - lo) / 2) k m e (entry_cmp-Compares k key)
              (λ c.
                search_loop-Searches f (lo + (hi - lo) / 2 + 1) hi m o small (omega arith)
                  (omega arith) le (Below-key_at o (lo + (hi - lo) / 2) k e c) a)
              (λ c.
                search_loop-Searches f lo (lo + (hi - lo) / 2) m o small (omega arith) (omega arith)
                  (omega arith) b (Above-key_at o (lo + (hi - lo) / 2) k e c))))
        (λ t. returns (
          missing (omega arith) b
              (subst Above (let e : hi ≡ lo = omega (arith, ltb→le lo hi t) in e) a),
          refl,
        ))

  -- On ascending keys the search ends, reads only entries that exist, and gives the place of the
  -- key or the one place where it can be inserted.
  pub dict_search-Finds :
      (m : Memory) → IsOrdered fs → count_fields fs ≤ size_max → Searches m (dict_search fs key m)
  unfolding dict_search
  dict_search-Finds m o small =
      search_loop-Searches (suc (count_fields fs)) 0 (count_fields fs) m o small (omega arith)
        (omega arith) (omega arith) (λ i k h e. absurd omega arith)
        (λ i k h e. absurd (key_at_none fs i k h e))
