-- ===== src/Cli/Print/Quotes.antt =====
-- What print_string prints can be read back: quotes and escapes lose nothing.
use bencode.Prelude.{
  ℕ, ◌+◌, ◌-◌, ◌*◌, ◌/◌, ◌%◌, ◌<◌, ◌≡◌, ◌∙◌, refl, ap, Bytes, false, Option, none, some, [], ◌∷◌,
  ◌++◌, ◌||◌, ◌&&◌, ◌==◌, ltb, leb, if◌then◌else◌, All, append_assoc, arith, Bool-cases, inl, inr,
}
use bencode.Exec.Ensures
use bencode.Exec.Ensures.{Ensures}
use bencode.Cli.{Platform, World}
use bencode.Cli.Print.{hex_digit, print_string}
use bencode.Cli.Print.Text.{escape, escape_all, quote}
use bencode.Cli.Print.Prints.{Outputs}
use bencode.Cli.Print.Strings.{print_string-Prints}

-- A reader of quoted strings: where it stands, behind the quote that opens.
pub data Mode : Type 0 where
  plain slash high : Mode
  low : ℕ → Mode

abbrev pub hex_value : ℕ → ℕ
hex_value c = if ltb c b'a' then c - b'0' else c - b'a' + 10

abbrev pub read_on : ℕ → Option (Bytes × Bytes) → Option (Bytes × Bytes)
read_on b none = none
read_on b (some (bs, rest)) = some (b ∷ bs, rest)

-- The bytes of the string, and what stands behind the quote that closes.
unfoldable pub unquote : Mode → Bytes → Option (Bytes × Bytes)
unquote mode [] = none
unquote plain (c ∷ cs) =
    let escaped = unquote slash cs in
    let next = unquote plain cs in
    if c == b'"' then some ([], cs) else if c == b'\\' then escaped else read_on c next
unquote slash (c ∷ cs) =
    let digits = unquote high cs in
    let next = unquote plain cs in if c == b'x' then digits else read_on c next
unquote high (c ∷ cs) = unquote (low (hex_value c)) cs
unquote (low n) (c ∷ cs) = read_on (n * 16 + hex_value c) (unquote plain cs)

hex_value-hex_digit : (n : ℕ) → n < 16 → hex_value (hex_digit n) ≡ n
hex_value-hex_digit n small = ground arith

two_digits :
    (b : ℕ) → b < 256 → hex_value (hex_digit (b / 16)) * 16 + hex_value (hex_digit (b % 16)) ≡ b
two_digits b byte =
    rw (hex_value-hex_digit (b / 16) (omega arith), hex_value-hex_digit (b % 16) (omega arith))
      (omega arith)

unquote-escape :
    (b : ℕ) (more : Bytes)
    → b < 256
    → unquote plain (escape b ++ more) ≡ read_on b (unquote plain more)
unfolding unquote escape
unquote-escape b more byte = elim (Bool-cases ((b == b'"') || (b == b'\\'))) [
  | inl marked ↦ let other : (b == b'x') ≡ false = ground (arith, marked) in rw (marked, other) refl
  | inr unmarked ↦ elim (Bool-cases (leb 0x20 b && ltb b 0x7f)) [
    | inl printable ↦
        let no_quote : (b == b'"') ≡ false = ground (arith, unmarked) in
        let no_slash : (b == b'\\') ≡ false = ground (arith, unmarked) in
        rw (unmarked, printable) (rw (no_quote, no_slash) refl)
    | inr binary ↦ rw (unmarked, binary, two_digits b byte) refl
  ]
]

abbrev pub IsByte : ℕ → Type 0
IsByte b = b < 256

unquote-escape_all :
    (bs rest : Bytes)
    → All IsByte bs
    → unquote plain (escape_all bs ++ b'"' ∷ rest) ≡ some (bs, rest)
unfolding unquote escape_all
unquote-escape_all [] rest bytes = refl
unquote-escape_all (b ∷ bs) rest (byte, bytes) =
    rw
      (
        append_assoc (escape b) (escape_all bs) (b'"' ∷ rest),
        unquote-escape b (escape_all bs ++ b'"' ∷ rest) byte,
        unquote-escape_all bs rest bytes,
      )
      refl

module _ {F S : Type 0} (os : Platform F S) (out : F) (contents : S → Bytes)
    (outputs : Outputs os out contents) where
  -- The output has grown by a quote and a text from which the bytes are read back, with whatever
  -- stands behind.
  abbrev pub Quoted : Bytes → World S → World S → Type 0
  Quoted bs w t =
      (text : Bytes) × (contents t.outside ≡ contents w.outside ++ b'"' ∷ text)
      × ((rest : Bytes) → unquote plain (text ++ rest) ≡ some (bs, rest))

  -- With output calls that have appended their text when they report no error, print_string
  -- returns, for every byte string. It fails, or the output has grown by a quoted text from which
  -- a reader of quotes and escapes gets back the byte string and what stands behind the text.
  pub print_string-ReadsBack :
      (bs : Bytes) (w : World S)
      → All IsByte bs
      → Ensures (λ _ t. Quoted bs w t) (λ _ t. t.memory ≡ w.memory) (print_string os out bs w)
  unfolding quote
  print_string-ReadsBack bs w bytes =
      Ensures.mono ((print_string-Prints os out contents outputs bs).prints w.memory w.outside)
        (λ _ t (_, wrote). (
          escape_all bs ++ b'"' ∷ [],
          wrote,
          λ rest.
              ap (unquote plain) (append_assoc (escape_all bs) (b'"' ∷ []) rest)
              ∙ unquote-escape_all bs rest bytes,
        ))
        (λ _ _ kept. kept)
