-- ===== src/Cli/Print.antt =====
-- src/main.c: the printers of `bencode print`. Their depth, and their loops' counters, count
-- active calls and entries in memory, so they do not wrap around.
pub mod Text
pub mod Prints
pub mod Strings
pub mod Rendered
pub mod Quotes
use bencode.Prelude.{
  ℕ, zero, suc, ◌+◌, ◌-◌, ◌/◌, ◌%◌, Bytes, Bool, true, false, ◌||◌, ◌&&◌, Option, [], ◌∷◌, ◌++◌,
  ◌==◌, ltb, leb, if◌then◌else◌, codes,
}
use bencode.Prelude.Int.{ℤ}
use bencode.Status.{io}
use bencode.Decimal.{signed}
use bencode.Exec.{Exec, out_of_fuel, pure, fail, lift, ◌>>=◌, ◌>>◌}
use bencode.Value.{Value, ValueType}
use bencode.Value.Access.{
  value_type, value_int, value_string, list_size, list_at, dict_size, dict_at,
}
use bencode.Cli.{Platform, World, call, on_heap, for_each}

-- A digit of "%x".
abbrev pub hex_digit : ℕ → ℕ
hex_digit n = if ltb n 10 then b'0' + n else b'a' + (n - 10)

-- "\\x%02x", of a byte.
abbrev pub hex_escape : ℕ → Bytes
hex_escape b = b'\\' ∷ b'x' ∷ hex_digit (b / 16) ∷ hex_digit (b % 16) ∷ []

module _ {F S : Type 0} (os : Platform F S) (out : F) where
  -- A round of the loop of print_string.
  unfoldable pub print_byte : ℕ → Exec (World S) (Unit {0})
  print_byte b =
      if (b == b'"') || (b == b'\\')
      then call (os.fprintf out (b'\\' ∷ b ∷ []))
      else if leb 0x20 b && ltb b 0x7f
      then call (os.fputc b out)
      else call (os.fprintf out (hex_escape b))

  unfoldable pub print_bytes : Bytes → Exec (World S) (Unit {0})
  unfolding print_byte
  print_bytes [] = pure tt
  print_bytes (b ∷ bs) = print_byte b >> print_bytes bs

  unfoldable pub print_string : Bytes → Exec (World S) (Unit {0})
  unfolding print_bytes
  print_string bs = call (os.fputc b'"' out) >> (print_bytes bs >> call (os.fputc b'"' out))

  unfoldable pub print_indent : ℕ → Exec (World S) (Unit {0})
  print_indent zero = pure tt
  print_indent (suc depth) = call (os.fputs (codes "  ") out) >> print_indent depth

  abbrev pub print_separator : ℕ → ℕ → Exec (World S) (Unit {0})
  print_separator i n = call (os.fputs (if ltb (i + 1) n then codes ",\n" else codes "\n") out)

  -- print_list and print_dict, given print_value.
  module _ (print : Option Value → ℕ → Exec (World S) (Unit {0})) where
    unfoldable pub print_item : Option Value → ℕ → ℕ → ℕ → Exec (World S) (Unit {0})
    unfolding print_indent list_at
    print_item v n depth i = do
      print_indent (suc depth)
      child ← on_heap (list_at v i)
      print child (suc depth)
      print_separator i n

    unfoldable pub print_list : Option Value → ℕ → Exec (World S) (Unit {0})
    unfolding list_size print_item print_indent
    print_list v depth =
        let n = list_size v in
        if n == 0 then call (os.fputs (codes "[]") out) else (do
          call (os.fputs (codes "[\n") out)
          for_each n 0 (print_item v n depth)
          print_indent depth
          call (os.fputc b']' out))

    unfoldable pub print_entry : Option Value → ℕ → ℕ → ℕ → Exec (World S) (Unit {0})
    unfolding print_indent print_string dict_at
    print_entry v n depth i = do
      (k, child) ← on_heap (dict_at v i)
      print_indent (suc depth)
      print_string k
      call (os.fputs (codes ": ") out)
      print (Option.some child) (suc depth)
      print_separator i n

    unfoldable pub print_dict : Option Value → ℕ → Exec (World S) (Unit {0})
    unfolding dict_size print_entry print_indent
    print_dict v depth =
        let n = dict_size v in
        if n == 0 then call (os.fputs (codes "{}") out) else (do
          call (os.fputs (codes "{\n") out)
          for_each n 0 (print_entry v n depth)
          print_indent depth
          call (os.fputc b'}' out))

  abbrev print_int : ℤ → Exec (World S) (Unit {0})
  print_int i = call (os.fprintf out (signed i))

  -- The fuel bounds the nesting of the calls.
  unfoldable pub print_value : ℕ → Option Value → ℕ → Exec (World S) (Unit {0})
  unfolding value_int value_string print_string print_list print_dict
  print_value zero v depth w = out_of_fuel
  print_value (suc f) v depth w = elim (value_type v) [
    | ValueType.int_type ↦ (lift (value_int v true) >>= print_int) w
    | ValueType.string_type ↦ (lift (value_string v true true) >>= print_string) w
    | ValueType.list_type ↦ print_list (print_value f) v depth w
    | ValueType.dict_type ↦ print_dict (print_value f) v depth w
    | ValueType.invalid ↦ fail io w
  ]
