-- ===== src/Sax/Parse/Spec.antt =====
-- What the functions of the parser are to do: read canonical encodings, call the callbacks for the
-- values read, and leave the scope stack as they found it.
use bencode.Prelude.{
  ℕ, suc, ◌+◌, ◌*◌, ◌≤◌, ◌<◌, ◌≡◌, Bytes, true, false, Option, none, some, List, ◌∷◌, ◌++◌, length,
}
use bencode.Status.{ok}
use bencode.Grammar.{
  Tree, Items, Entries, encode, encode_items, encode_entries, IsCanonical, IsCanonicalItems,
  IsCanonicalEntries, After, depth, depth_items, depth_entries, events, events_items,
  events_entries,
}
use bencode.Exec.{Exec}
use bencode.Exec.Ensures.{Ensures}
use bencode.Sax.State.{SaxScope, SaxState, Callbacks, state}
use bencode.Sax.Events.{deliver, Breaks}

-- The entries stand after the last key, if there is one.
abbrev pub AfterLast : Option Bytes → Entries → Type 0
AfterLast none es = Unit
AfterLast (some k) es = After k es

module _ {U : Type 0} (cb : Option (Callbacks U)) (max_depth : ℕ) where
  abbrev pub ReadsValue : Bytes → List SaxScope → U → SaxState U → Type 0
  ReadsValue p scopes user t =
      (v : Tree) × IsCanonical v
      × (depth v + length scopes ≤ max_depth)
      × (p ≡ encode v ++ t.p)
      × (t.scopes ≡ scopes)
      × (deliver cb (events v) user ≡ (ok tt, t.user))

  -- From inside a list: `scopes` are those around the list.
  abbrev pub ReadsItems : Bytes → List SaxScope → U → SaxState U → Type 0
  ReadsItems p scopes user t =
      (xs : Items) × IsCanonicalItems xs
      × (depth_items xs + suc (length scopes) ≤ max_depth)
      × (p ≡ encode_items xs ++ t.p)
      × (t.scopes ≡ scopes)
      × (deliver cb (events_items xs) user ≡ (ok tt, t.user))

  -- From inside a dictionary, where a key may stand.
  abbrev pub ReadsEntries : Option Bytes → Bytes → List SaxScope → U → SaxState U → Type 0
  ReadsEntries last p scopes user t =
      (es : Entries) × (IsCanonicalEntries es × AfterLast last es)
      × (depth_entries es + suc (length scopes) ≤ max_depth)
      × (p ≡ encode_entries es ++ t.p)
      × (t.scopes ≡ scopes)
      × (deliver cb (events_entries es) user ≡ (ok tt, t.user))

  -- From inside a dictionary, behind a key.
  abbrev pub ReadsPair : Option Bytes → Bytes → List SaxScope → U → SaxState U → Type 0
  ReadsPair last p scopes user t =
      (v : Tree) × (es : Entries) × (IsCanonical v × IsCanonicalEntries es × AfterLast last es)
      × ((depth v + suc (length scopes) ≤ max_depth)
          × (depth_entries es + suc (length scopes) ≤ max_depth))
      × (p ≡ encode v ++ (encode_entries es ++ t.p))
      × (t.scopes ≡ scopes)
      × (deliver cb (events v ++ events_entries es) user ≡ (ok tt, t.user))

  -- A call that fails has called the callbacks for a part of a value that begins
  -- with what stands there, and left the scopes as they were.
  abbrev pub BreaksTree : ℕ → Bytes → U → U → Type 0
  BreaksTree level p user u =
      (v : Tree) × IsCanonical v × (depth v + level ≤ max_depth) × Breaks cb p (events v) user u

  abbrev pub BreaksValue : Bytes → List SaxScope → U → SaxState U → Type 0
  BreaksValue p scopes user t = (t.scopes ≡ scopes) × BreaksTree (length scopes) p user t.user

  abbrev pub BreaksItems : Bytes → List SaxScope → U → SaxState U → Type 0
  BreaksItems p scopes user t =
      (t.scopes ≡ scopes)
      × (xs : Items) × IsCanonicalItems xs
      × (depth_items xs + suc (length scopes) ≤ max_depth)
      × Breaks cb p (events_items xs) user t.user

  abbrev pub BreaksEntries : Option Bytes → Bytes → List SaxScope → U → SaxState U → Type 0
  BreaksEntries last p scopes user t =
      (t.scopes ≡ scopes)
      × (es : Entries) × (IsCanonicalEntries es × AfterLast last es)
      × (depth_entries es + suc (length scopes) ≤ max_depth)
      × Breaks cb p (events_entries es) user t.user

  abbrev pub BreaksPair : Option Bytes → Bytes → List SaxScope → U → SaxState U → Type 0
  BreaksPair last p scopes user t =
      (t.scopes ≡ scopes)
      × (v : Tree) × (es : Entries) × (IsCanonical v × IsCanonicalEntries es × AfterLast last es)
      × ((depth v + suc (length scopes) ≤ max_depth)
          × (depth_entries es + suc (length scopes) ≤ max_depth))
      × Breaks cb p (events v ++ events_entries es) user t.user

  abbrev pub BreaksDict : SaxScope → Bytes → List SaxScope → U → SaxState U → Type 0
  BreaksDict sc p scopes user t = elim sc.expecting_key [
    | true ↦ BreaksEntries sc.last_key p scopes user t
    | false ↦ BreaksPair sc.last_key p scopes user t
  ]

  abbrev pub ReadsDict : SaxScope → Bytes → List SaxScope → U → SaxState U → Type 0
  ReadsDict sc p scopes user t = elim sc.expecting_key [
    | true ↦ ReadsEntries sc.last_key p scopes user t
    | false ↦ ReadsPair sc.last_key p scopes user t
  ]

  -- A call with more than twice as much fuel as input does what it is to do, or breaks off.
  abbrev pub ValueLaw : ℕ → Exec (SaxState U) (Unit {0}) → Type 0
  ValueLaw fuel value =
      (p : Bytes) (scopes : List SaxScope) (user : U)
      → 2 * length p < fuel
      → length scopes ≤ max_depth
      → Ensures (λ _ t. ReadsValue p scopes user t) (λ _ t. BreaksValue p scopes user t)
          (value (state p scopes user))

  abbrev pub ListLaw : ℕ → Exec (SaxState U) (Unit {0}) → Type 0
  ListLaw fuel loop =
      (p : Bytes) (sc : SaxScope) (scopes : List SaxScope) (user : U)
      → 2 * length p + 1 < fuel
      → suc (length scopes) ≤ max_depth
      → Ensures (λ _ t. ReadsItems p scopes user t) (λ _ t. BreaksItems p scopes user t)
          (loop (state p (sc ∷ scopes) user))

  abbrev pub DictLaw : ℕ → Exec (SaxState U) (Unit {0}) → Type 0
  DictLaw fuel loop =
      (p : Bytes) (sc : SaxScope) (scopes : List SaxScope) (user : U)
      → 2 * length p + 1 < fuel
      → suc (length scopes) ≤ max_depth
      → Ensures (λ _ t. ReadsDict sc p scopes user t) (λ _ t. BreaksDict sc p scopes user t)
          (loop (state p (sc ∷ scopes) user))
