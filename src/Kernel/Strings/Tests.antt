-- ===== src/Kernel/Strings/Tests.antt =====
-- Runs of the strings of kernel/libs/string.c.
use tay_huang_os.Prelude.{ℕ, List, [], ◌∷◌, ◌≡◌, ◌↔◌, ◌<◌, refl, length}
use tay_huang_os.Prelude.Int.{pos, negsuc}
use tay_huang_os.Kernel.Strings.{compare_chars, strcmp}
use tay_huang_os.Kernel.Strings.Compare.{strcmp-eq}

-- "b" is less than "ab", as it is shorter.
shorter_first : strcmp (b'b' ∷ []) (b'a' ∷ b'b' ∷ []) ≡ negsuc 0
unfolding strcmp
shorter_first = refl

-- Bytes from 128 on are negative.
signed_chars : strcmp (200 ∷ []) (b'a' ∷ []) ≡ negsuc 0
unfolding strcmp compare_chars
signed_chars = refl

abbrev one_char : List ℕ
one_char = b'a' ∷ []

abbrev two_chars : List ℕ
two_chars = b'b' ∷ b'c' ∷ []

strcmp_same :
    ((strcmp one_char two_chars ≡ pos 0) ↔ (one_char ≡ two_chars))
    × (length one_char < length two_chars → strcmp one_char two_chars ≡ negsuc 0)
strcmp_same = strcmp-eq one_char two_chars
