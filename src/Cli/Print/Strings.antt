-- ===== src/Cli/Print/Strings.antt =====
-- print_string, print_indent and the ends of lines.
use bencode.Prelude.{
  ℕ, zero, suc, ◌+◌, ◌≡◌, Bytes, [], ◌∷◌, ◌||◌, ◌&&◌, ◌==◌, ltb, leb, le→ltb, lt→ltb, codes,
  Bool-cases, inl, inr, arith,
}
use bencode.Value.{
  Elements, Fields, no_elements, element, no_fields, field, count_elements, count_fields, view,
  view_elements, view_fields,
}
use bencode.Cli.{Platform}
use bencode.Cli.Print.{
  print_byte, print_bytes, print_string, print_indent, print_separator, hex_escape,
}
use bencode.Cli.Print.Text.{escape, escape_all, quote, indent, item_end, entry_end}
use bencode.Cli.Print.Prints.{Outputs, Prints, Prints-nothing, Prints-call, Prints-then}

module _ {F S : Type 0} (os : Platform F S) (out : F) (contents : S → Bytes)
    (outputs : Outputs os out contents) where
  print_byte-Prints : (b : ℕ) → Prints contents (escape b) (print_byte os out b)
  unfolding print_byte escape
  print_byte-Prints b = elim (Bool-cases ((b == b'"') || (b == b'\\'))) [
    | inl quoted ↦ rw quoted (Prints-call contents (outputs.fprintf (b'\\' ∷ b ∷ [])))
    | inr other ↦ elim (Bool-cases (leb 0x20 b && ltb b 0x7f)) [
      | inl plain ↦ rw (other, plain) (Prints-call contents (outputs.fputc b))
      | inr binary ↦ rw (other, binary) (Prints-call contents (outputs.fprintf (hex_escape b)))
    ]
  ]

  print_bytes-Prints : (bs : Bytes) → Prints contents (escape_all bs) (print_bytes os out bs)
  unfolding print_bytes escape_all
  print_bytes-Prints [] = Prints-nothing contents
  print_bytes-Prints (b ∷ bs) = Prints-then contents (print_byte-Prints b) (print_bytes-Prints bs)

  pub print_string-Prints : (bs : Bytes) → Prints contents (quote bs) (print_string os out bs)
  unfolding print_string quote
  print_string-Prints bs =
      Prints-then contents (Prints-call contents (outputs.fputc b'"'))
        (Prints-then contents (print_bytes-Prints bs) (Prints-call contents (outputs.fputc b'"')))

  pub print_indent-Prints : (n : ℕ) → Prints contents (indent n) (print_indent os out n)
  unfolding print_indent indent
  print_indent-Prints zero = Prints-nothing contents
  print_indent-Prints (suc n) =
      Prints-then contents (Prints-call contents (outputs.fputs (codes "  ")))
        (print_indent-Prints n)

  pub item_separator-Prints :
      (i n : ℕ) (xs : Elements)
      → n ≡ i + suc (count_elements xs)
      → Prints contents (item_end (view_elements xs)) (print_separator os out i n)
  unfolding view
  item_separator-Prints i n no_elements e =
      rw (le→ltb (i + 1) n (omega (arith, e))) (Prints-call contents (outputs.fputs (codes "\n")))
  item_separator-Prints i n (element v xs) e =
      rw (lt→ltb (i + 1) n (omega (arith, e))) (Prints-call contents (outputs.fputs (codes ",\n")))

  pub entry_separator-Prints :
      (i n : ℕ) (fs : Fields)
      → n ≡ i + suc (count_fields fs)
      → Prints contents (entry_end (view_fields fs)) (print_separator os out i n)
  unfolding view
  entry_separator-Prints i n no_fields e =
      rw (le→ltb (i + 1) n (omega (arith, e))) (Prints-call contents (outputs.fputs (codes "\n")))
  entry_separator-Prints i n (field k v fs) e =
      rw (lt→ltb (i + 1) n (omega (arith, e))) (Prints-call contents (outputs.fputs (codes ",\n")))
