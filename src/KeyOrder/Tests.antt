-- ===== src/KeyOrder/Tests.antt =====
-- Key comparisons at concrete keys.
use bencode.Prelude.{◌≡◌, refl, codes}
use bencode.KeyOrder.{bytes_cmp, Compares, Ordering}
use bencode.KeyOrder.Laws.{bytes_cmp-Compares}

-- A prefix stands before the longer key, and bytes are unsigned.
prefixes : bytes_cmp (codes "spa") (codes "spam") ≡ Ordering.lt
unfolding bytes_cmp
prefixes = refl

bytes_cmp-Compares_example :
    Compares (codes "cow") (codes "co") (bytes_cmp (codes "cow") (codes "co"))
bytes_cmp-Compares_example = bytes_cmp-Compares (codes "cow") (codes "co")
