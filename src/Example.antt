-- ===== src/Example.antt =====
-- examples/decode_example.c: a program that parses a literal and looks a key up.
pub mod Shows
mod Tests
use bencode.Prelude.{
  ℕ, ◌^◌, Bytes, true, Option, none, some, [], ◌∷◌, ◌++◌, ltb, ◌==◌, if◌then◌else◌, length, codes,
}
use bencode.Status.{Error, Result, ok, err, status_string}
use bencode.Decimal.{decimal}
use bencode.Exec.{Run, returned, out_of_bounds, out_of_fuel, Exec, pure, fault, ◌>>=◌, ◌>>◌}
use bencode.Memory.{Memory}
use bencode.Value.{Value, ValueType}
use bencode.Value.Build.{free_pointer}
use bencode.Value.Access.{value_type, value_string, dict_get}
use bencode.Sax.Parse.{bytes}
use bencode.Dom.Callbacks.{default_options, parse}
use bencode.Cli.{Platform, World, world, call_void, on_heap, libc}

abbrev pub literal : Bytes
literal = codes "d3:cow3:moo4:spaml1:a1:bee"

-- (int)bencode_value_type(root)
abbrev pub type_code : ValueType → ℕ
type_code ValueType.invalid = 0
type_code ValueType.int_type = 1
type_code ValueType.string_type = 2
type_code ValueType.list_type = 3
type_code ValueType.dict_type = 4

-- What `%.*s` prints of an array: the bytes up to the first that is 0.
abbrev pub before_nul : Bytes → Bytes
before_nul [] = []
before_nul (c ∷ cs) = if c == 0 then [] else c ∷ before_nul cs

abbrev pub parsed_line : ℕ → Bytes
parsed_line consumed = codes "parsed " ++ (decimal consumed ++ codes " bytes into bencode tree\n")

abbrev pub type_line : ValueType → Bytes
type_line type = codes "top-level type: " ++ (decimal (type_code type) ++ codes " (4 = dict)\n")

abbrev pub cow_line : Bytes → Bytes
cow_line bs = codes "cow -> \"" ++ (before_nul bs ++ codes "\"\n")

module _ {F S : Type 0} (os : Platform F S) where
  abbrev pub printf : Bytes → Exec (World S) (Unit {0})
  printf text = call_void (os.fprintf os.stdout text)

  -- (int)len is negative for a length beyond INT_MAX, and then `%.*s` may read past the end.
  unfoldable pub show_string : Bytes → Exec (World S) (Unit {0})
  unfolding decimal
  show_string bs = if ltb (length bs) (2 ^ 31) then printf (cow_line bs) else fault

  abbrev pub show_bytes : Result Bytes → Exec (World S) (Unit {0})
  show_bytes (ok bs) = show_string bs
  show_bytes (err e) = pure tt

  abbrev pub show_found : Option Value → Exec (World S) (Unit {0})
  show_found none = pure tt
  show_found (some v) = show_bytes (value_string (some v) true true)

  unfoldable pub show_root : Option Value → ℕ → Exec (World S) ℕ
  unfolding decimal value_string dict_get show_string free_pointer
  show_root root consumed = do
    printf (parsed_line consumed)
    printf (type_line (value_type root))
    cow_val ← on_heap (dict_get root (some (codes "cow")) 3)
    show_found cow_val
    on_heap (free_pointer root)
    pure 0

  unfoldable pub report_failed : Error → ℕ → Exec (World S) ℕ
  unfolding decimal status_string
  report_failed e consumed = do
    call_void (
        os.fprintf os.stderr (
          codes "parse failed at offset "
          ++ (decimal consumed ++ (codes ": " ++ (codes (status_string (err e)) ++ codes "\n")))))
    pure 1

  abbrev pub conclude_example : S → Run (Memory × ℕ) (Option Value) → Run (World S) ℕ
  conclude_example s (returned (ok root) (m, consumed)) = show_root root consumed (world m s)
  conclude_example s (returned (err e) (m, consumed)) = report_failed e consumed (world m s)
  conclude_example s out_of_bounds = out_of_bounds
  conclude_example s out_of_fuel = out_of_fuel

  -- main
  unfoldable pub decode_main : Exec (World S) ℕ
  unfolding parse show_root report_failed
  decode_main w =
      conclude_example w.outside (parse (libc os) true (bytes literal) default_options w.memory)
