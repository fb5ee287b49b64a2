-- ===== src/Cli/Print/Text.antt =====
-- The rendering of a value, as a specification: two spaces of indentation for each level, an
-- element or an entry on each line, and strings in quotes with escapes.
use bencode.Prelude.{
  ℕ, zero, suc, Bytes, ◌||◌, ◌&&◌, [], ◌∷◌, ◌++◌, ◌==◌, ltb, leb, if◌then◌else◌, codes,
}
use bencode.Decimal.{signed}
use bencode.Grammar.{Tree, Items, Entries, int, str, list, dict, no_items, item, no_entries, entry}
use bencode.Cli.Print.{hex_escape}

unfoldable pub escape : ℕ → Bytes
escape b =
    if (b == b'"') || (b == b'\\')
    then b'\\' ∷ b ∷ []
    else if leb 0x20 b && ltb b 0x7f
    then b ∷ []
    else hex_escape b

unfoldable pub escape_all : Bytes → Bytes
unfolding escape
escape_all [] = []
escape_all (b ∷ bs) = escape b ++ escape_all bs

unfoldable pub quote : Bytes → Bytes
unfolding escape_all
quote bs = b'"' ∷ (escape_all bs ++ b'"' ∷ [])

unfoldable pub indent : ℕ → Bytes
indent zero = []
indent (suc depth) = codes "  " ++ indent depth

-- A line ends in a comma if another element or entry follows.
abbrev pub item_end : Items → Bytes
item_end no_items = codes "\n"
item_end (item t xs) = codes ",\n"

abbrev pub entry_end : Entries → Bytes
entry_end no_entries = codes "\n"
entry_end (entry k t es) = codes ",\n"

unfoldable mutual
  unfolding quote indent

  pub render : ℕ → Tree → Bytes
  render depth (int i) = signed i
  render depth (str bs) = quote bs
  render depth (list no_items) = codes "[]"
  render depth (list (item t xs)) =
      codes "[\n" ++ (render_items depth (item t xs) ++ (indent depth ++ b']' ∷ []))
  render depth (dict no_entries) = codes "{}"
  render depth (dict (entry k t es)) =
      codes "{\n" ++ (render_entries depth (entry k t es) ++ (indent depth ++ b'}' ∷ []))

  pub render_items : ℕ → Items → Bytes
  render_items depth no_items = []
  render_items depth (item t xs) =
      (indent (suc depth) ++ (render (suc depth) t ++ item_end xs)) ++ render_items depth xs

  pub render_entries : ℕ → Entries → Bytes
  render_entries depth no_entries = []
  render_entries depth (entry k t es) =
      (indent (suc depth) ++ (quote k ++ (codes ": " ++ (render (suc depth) t ++ entry_end es))))
      ++ render_entries depth es
