-- ===== src/Sax/Parse.antt =====
-- src/parse_sax.c: `parse_value`, `parse_list`, `parse_dict` and the entry `bencode_parse_sax`.
pub mod Spec
pub mod Scopes
pub mod Lists
pub mod Keys
pub mod Dicts
pub mod Sound
pub mod Steps
pub mod Parts
pub mod Rounds
pub mod Complete
pub mod Entry
pub mod Prefixes
use bencode.Prelude.{
  ℕ, zero, suc, ◌+◌, ◌-◌, ◌*◌, Bytes, Bool, true, false, not, Option, none, some, [], ltb, ◌==◌,
  if◌then◌else◌, length,
}
use bencode.Status.{
  ok, err, Status, truncated, unexpected_byte, dict_unsorted, dict_duplicate, dict_bad_key,
  dict_missing_value, invalid_arg,
}
use bencode.KeyOrder.{bytes_cmp, Ordering}
use bencode.Grammar.{on_string, on_list_begin, on_list_end, on_dict_begin, on_dict_end}
use bencode.Exec.{Run, returned, out_of_bounds, out_of_fuel, Exec, fail, lift, or_else, ◌>>=◌, ◌>>◌}
use bencode.Sax.State.{
  SaxState, Callbacks, internal_max_depth, notify, at_end, peek, advance, push_scope, pop_scope,
  current_scope, set_scope,
}
use bencode.Sax.Scan.{is_digit, parse_int, parse_string}

-- BENCODE_DEFAULT_MAX_DEPTH
abbrev pub default_max_depth : ℕ
default_max_depth = 64

-- The order of a key and the key before it, if there is one.
abbrev pub order_error : Ordering → Status
order_error Ordering.eq = err dict_duplicate
order_error Ordering.gt = err dict_unsorted
order_error Ordering.lt = ok tt

unfoldable pub check_order : Option Bytes → Bytes → Status
unfolding bytes_cmp
check_order none key = ok tt
check_order (some last) key = order_error (bytes_cmp last key)

module _ {U : Type 0} where
  -- `sc->expecting_key = 1`
  unfoldable pub expect_key : Exec (SaxState U) (Unit {0})
  unfolding current_scope set_scope
  expect_key = do sc ← current_scope; set_scope (record sc { expecting_key = true })

module _ {U : Type 0} (cb : Option (Callbacks U)) where
  -- `parse_dict_key` behind the string: the tests, the new last key, and the callback.
  unfoldable pub accept_key : Bytes → Exec (SaxState U) (Unit {0})
  unfolding current_scope check_order set_scope notify
  accept_key key = do
    sc ← current_scope
    lift (check_order sc.last_key key)
    set_scope (record sc { last_key = some key; expecting_key = false })
    notify cb (on_string key)

  unfoldable pub parse_dict_key : Exec (SaxState U) (Unit {0})
  unfolding peek parse_string accept_key
  parse_dict_key = do
    b ← peek
    if not (is_digit b) then fail dict_bad_key else do key ← parse_string; accept_key key

  -- One round of the loop of `parse_list`: `value` reads one value, `loop` goes round again.
  unfoldable pub list_round :
      (value loop : Exec (SaxState U) (Unit {0})) → Exec (SaxState U) (Unit {0})
  unfolding at_end peek advance pop_scope notify
  list_round value loop = do
    over ← at_end
    if over then pop_scope >> fail truncated else do
      b ← peek
      if b == b'e'
          then advance 1 >> (pop_scope >> notify cb on_list_end)
          else or_else value pop_scope >> loop

  -- `e` closes a dictionary only where a key may stand.
  unfoldable pub close_dict : Bool → Exec (SaxState U) (Unit {0})
  unfolding advance pop_scope notify
  close_dict expecting_key =
      if not expecting_key
      then pop_scope >> fail dict_missing_value
      else advance 1 >> (pop_scope >> notify cb on_dict_end)

  -- One round of the loop of `parse_dict`.
  unfoldable pub dict_round :
      (value loop : Exec (SaxState U) (Unit {0})) → Exec (SaxState U) (Unit {0})
  unfolding at_end peek advance pop_scope current_scope parse_dict_key expect_key close_dict
  dict_round value loop = do
    over ← at_end
    if over then pop_scope >> fail truncated else do
      sc ← current_scope
      b ← peek
      if b == b'e'
          then close_dict sc.expecting_key
          else if sc.expecting_key
          then or_else parse_dict_key pop_scope >> loop
          else or_else value pop_scope >> (expect_key >> loop)

  -- `parse_list` up to its loop.
  unfoldable pub parse_list :
      ℕ → (loop : Exec (SaxState U) (Unit {0})) → Exec (SaxState U) (Unit {0})
  unfolding advance push_scope pop_scope notify
  parse_list max_depth loop = do
    advance 1
    push_scope max_depth false
    or_else (notify cb on_list_begin) pop_scope
    loop

  unfoldable pub parse_dict :
      ℕ → (loop : Exec (SaxState U) (Unit {0})) → Exec (SaxState U) (Unit {0})
  unfolding advance push_scope pop_scope notify
  parse_dict max_depth loop = do
    advance 1
    push_scope max_depth true
    or_else (notify cb on_dict_begin) pop_scope
    loop

  -- The dispatch of `parse_value`.
  unfoldable pub dispatch :
      ℕ → (list_loop dict_loop : Exec (SaxState U) (Unit {0})) → Exec (SaxState U) (Unit {0})
  unfolding at_end peek parse_int parse_list parse_dict parse_string notify
  dispatch max_depth list_loop dict_loop = do
    over ← at_end
    if over then fail truncated else do
      b ← peek
      if b == b'i'
          then parse_int cb
          else if b == b'l'
          then parse_list max_depth list_loop
          else if b == b'd'
          then parse_dict max_depth dict_loop
          else if is_digit b
          then (do bytes ← parse_string; notify cb (on_string bytes))
          else fail unexpected_byte

  -- The calls between the functions above. Each costs one unit of fuel.
  unfoldable mutual
    unfolding dispatch list_round dict_round

    pub parse_value : ℕ → ℕ → Exec (SaxState U) (Unit {0})
    parse_value max_depth zero s = out_of_fuel
    parse_value max_depth (suc f) s =
        dispatch max_depth (list_loop max_depth f) (dict_loop max_depth f) s

    pub list_loop : ℕ → ℕ → Exec (SaxState U) (Unit {0})
    list_loop max_depth zero s = out_of_fuel
    list_loop max_depth (suc f) s = list_round (parse_value max_depth f) (list_loop max_depth f) s

    pub dict_loop : ℕ → ℕ → Exec (SaxState U) (Unit {0})
    dict_loop max_depth zero s = out_of_fuel
    dict_loop max_depth (suc f) s = dict_round (parse_value max_depth f) (dict_loop max_depth f) s

-- What `input` points to: NULL, with whatever size the caller passes, or that many bytes.
pub data Buffer : Type 0 where
  null : ℕ → Buffer
  bytes : Bytes → Buffer

abbrev pub size : Buffer → ℕ
size (null n) = n
size (bytes bs) = length bs

-- 0 means the default, and the size of the scope stack is the upper limit.
unfoldable pub effective_depth : ℕ → ℕ
effective_depth max_depth =
    let effective = if max_depth == 0 then default_max_depth else max_depth in
    if ltb internal_max_depth effective then internal_max_depth else effective

abbrev pub fuel_for : Bytes → ℕ
fuel_for bs = 2 * length bs + 1

module _ {U : Type 0} where
  abbrev pub with_consumed : Bytes → Run (SaxState U) (Unit {0}) → Run (U × ℕ) (Unit {0})
  with_consumed input (returned r s) = returned r (s.user, length input - length s.p)
  with_consumed input out_of_bounds = out_of_bounds
  with_consumed input out_of_fuel = out_of_fuel

  -- The state of a result is the caller's `user` data and `*consumed`.
  unfoldable pub parse_sax : Buffer → Option (Callbacks U) → U → ℕ → Run (U × ℕ) (Unit {0})
  unfolding parse_value effective_depth
  parse_sax (null n) cb user max_depth =
      if n == 0 then returned (err truncated) (user, 0) else returned (err invalid_arg) (user, 0)
  parse_sax (bytes []) cb user max_depth = returned (err truncated) (user, 0)
  parse_sax (bytes input) cb user max_depth = with_consumed input (
      parse_value cb (effective_depth max_depth) (fuel_for input)
        (record { p = input; scopes = []; user = user }))
