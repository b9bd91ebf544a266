-- ===== src/Cstring.antt =====
-- The string functions of libc/string that read: `strlen`, `strcmp`, `memcmp`, and what `strcpy`
-- copies. A C string is the list of the bytes from its pointer on; behind the end of the list a
-- read gives 0.
pub mod Laws
use icix.Prelude.{ℕ, zero, suc, ◌+◌, ◌==◌, if◌then◌else◌, ltb, not, ◌&&◌, List, [], ◌∷◌, ◌++◌}
use icix.Prelude.{sub32, minus_one, take, drop}

unfoldable pub strlen : List ℕ → ℕ
strlen [] = 0
strlen (c ∷ s) = if c == 0 then 0 else strlen s + 1

unfoldable pub strcmp : List ℕ → List ℕ → ℕ
strcmp [] [] = 0
strcmp [] (b ∷ t) = sub32 0 b
strcmp (a ∷ s) [] = a
strcmp (a ∷ s) (b ∷ t) = if not (a == 0) && (a == b) then strcmp s t else sub32 a b

-- `size` bytes of two buffers.
unfoldable pub memcmp : List ℕ → List ℕ → ℕ → ℕ
memcmp a b zero = 0
memcmp [] b (suc size) = 0
memcmp (x ∷ a) [] (suc size) = 0
memcmp (x ∷ a) (y ∷ b) (suc size) =
    if ltb x y then minus_one else if ltb y x then 1 else memcmp a b size

-- n bytes of a string, with zeros behind the end of the list.
unfoldable pub bytes_of : ℕ → List ℕ → List ℕ
bytes_of zero s = []
bytes_of (suc n) [] = 0 ∷ bytes_of n []
bytes_of (suc n) (c ∷ s) = c ∷ bytes_of n s

-- `memcpy(dest, src, sizeof(src) + 1)`: `src` is a pointer, so five bytes, whatever the string.
unfoldable pub strcpy : List ℕ → List ℕ → List ℕ
unfolding bytes_of
strcpy dest src = bytes_of 5 src ++ drop 5 dest

-- `while (*dest++ = *src++)`: the bytes of `src` to its 0, over those of `dest`.
unfoldable pub copy_string : List ℕ → List ℕ → List ℕ
copy_string dest [] = 0 ∷ drop 1 dest
copy_string dest (c ∷ src) = if c == 0 then 0 ∷ drop 1 dest else c ∷ copy_string (drop 1 dest) src

unfoldable pub strcat : List ℕ → List ℕ → List ℕ
unfolding copy_string
strcat [] src = copy_string [] src
strcat (c ∷ dest) src = if c == 0 then copy_string (c ∷ dest) src else c ∷ strcat dest src
