-- ===== src/Cli/Walk.antt =====
-- src/main.c: the statistics of `bencode size`. The counters wrap around at 2 ^ 64.
pub mod Census
pub mod Bounds
pub mod Exact
use bencode.Prelude.{ℕ, zero, suc, Bytes, true, Option, none, some, ltb, if◌then◌else◌, length}
use bencode.Prelude.Word.{add64}
use bencode.Status.{Result, ok, err}
use bencode.Exec.{Exec, Run, returned, out_of_bounds, out_of_fuel, pure, ◌>>=◌, ◌>>◌}
use bencode.Memory.{Memory}
use bencode.Value.{Value, ValueType}
use bencode.Value.Access.{value_type, value_string, list_size, list_at, dict_size, dict_at}
use bencode.Cli.{World, world, on_heap, attempt, for_each}

pub record Stats : Type 0 where
  pub total_values : ℕ
  pub ints : ℕ
  pub strings : ℕ
  pub lists : ℕ
  pub dicts : ℕ
  pub max_depth_seen : ℕ
  pub total_string_bytes : ℕ

-- stats st = {0}
abbrev pub no_stats : Stats
no_stats = record {
  total_values = 0;
  ints = 0;
  strings = 0;
  lists = 0;
  dicts = 0;
  max_depth_seen = 0;
  total_string_bytes = 0;
}

abbrev pub Count : Type 0
Count = Exec (World Stats) (Unit {0})

abbrev pub tally : (Stats → Stats) → Count
tally f w = pure tt (world w.memory (f w.outside))

-- st->total_values++, and the test of the depth behind it.
abbrev pub count_value : ℕ → Stats → Stats
count_value depth st = record st {
  total_values = add64 st.total_values 1;
  max_depth_seen = if ltb st.max_depth_seen depth then depth else st.max_depth_seen;
}

abbrev pub count_int : Stats → Stats
count_int st = record st { ints = add64 st.ints 1 }

abbrev pub count_string : Stats → Stats
count_string st = record st { strings = add64 st.strings 1 }

abbrev pub count_bytes : ℕ → Stats → Stats
count_bytes len st = record st { total_string_bytes = add64 st.total_string_bytes len }

abbrev pub count_list : Stats → Stats
count_list st = record st { lists = add64 st.lists 1 }

abbrev pub count_dict : Stats → Stats
count_dict st = record st { dicts = add64 st.dicts 1 }

abbrev pub string_bytes : Result Bytes → Count
string_bytes (ok bs) = tally (count_bytes (length bs))
string_bytes (err e) = pure tt

module _ (walk_child : Option Value → ℕ → Count) where
  unfoldable pub walk_item : Option Value → ℕ → ℕ → Count
  unfolding list_at
  walk_item v depth i = on_heap (list_at v i) >>= λ child. walk_child child (suc depth)

  unfoldable pub walk_found : ℕ → Result (Bytes × Value) → Count
  walk_found depth (ok (k, child)) = do
    tally count_string
    tally (count_bytes (length k))
    walk_child (some child) (suc depth)
  walk_found depth (err e) = pure tt

  unfoldable pub walk_entry : Option Value → ℕ → ℕ → Count
  unfolding dict_at walk_found
  walk_entry v depth i = attempt (on_heap (dict_at v i)) >>= walk_found depth

  -- The switch.
  unfoldable pub walk_kind : Option Value → ℕ → Count
  unfolding value_string list_size dict_size walk_item walk_entry
  walk_kind v depth = elim (value_type v) [
    | ValueType.int_type ↦ tally count_int
    | ValueType.string_type ↦ tally count_string >> string_bytes (value_string v true true)
    | ValueType.list_type ↦ tally count_list >> for_each (list_size v) 0 (walk_item v depth)
    | ValueType.dict_type ↦ tally count_dict >> for_each (dict_size v) 0 (walk_entry v depth)
    | ValueType.invalid ↦ pure tt
  ]

-- The fuel bounds the nesting of the calls.
unfoldable pub walk : ℕ → Option Value → ℕ → Count
unfolding walk_kind
walk zero v depth w = out_of_fuel
walk (suc f) none depth w = pure tt w
walk (suc f) (some v) depth w = (tally (count_value depth) >> walk_kind (walk f) (some v) depth) w
