-- ===== src/Boot/Messages.antt =====
-- The messages of `kernel_main`, without the NUL at their ends.
use icix.Prelude.{ℕ, List, [], ◌∷◌}

abbrev pub modules_text : List ℕ
modules_text =
    b'M' ∷ b'u' ∷ b'l' ∷ b't' ∷ b'i' ∷ b'b' ∷ b'o' ∷ b'o' ∷ b't' ∷ b' ' ∷ b'i' ∷ b'n' ∷ b'f' ∷ b'o'
    ∷ b':' ∷ b' ' ∷ 10 ∷ b' ' ∷ b' ' ∷ b' ' ∷ b' ' ∷ b'M' ∷ b'o' ∷ b'd' ∷ b'u' ∷ b'l' ∷ b'e' ∷ b's'
    ∷ b' ' ∷ b'c' ∷ b'n' ∷ b't' ∷ b':' ∷ b' ' ∷ []

abbrev pub booted_text : List ℕ
booted_text =
    10 ∷ b' ' ∷ b' ' ∷ b' ' ∷ b' ' ∷ b'B' ∷ b'o' ∷ b'o' ∷ b't' ∷ b'e' ∷ b'd' ∷ b' ' ∷ b'f' ∷ b'r'
    ∷ b'o' ∷ b'm' ∷ b':' ∷ b' ' ∷ []

abbrev pub descriptors_text : List ℕ
descriptors_text =
    b'I' ∷ b'D' ∷ b'T' ∷ b',' ∷ b' ' ∷ b'G' ∷ b'D' ∷ b'T' ∷ b' ' ∷ b'i' ∷ b'n' ∷ b'i' ∷ b't' ∷ b'.'
    ∷ b'.' ∷ []

abbrev pub ok_text : List ℕ
ok_text = b' ' ∷ b'O' ∷ b'K' ∷ 10 ∷ []

abbrev pub paging_text : List ℕ
paging_text =
    b'P' ∷ b'a' ∷ b'g' ∷ b'i' ∷ b'n' ∷ b'g' ∷ b' ' ∷ b'i' ∷ b'n' ∷ b'i' ∷ b't' ∷ b'.' ∷ b'.' ∷ b' '
    ∷ []

abbrev pub pic_text : List ℕ
pic_text =
    b'O' ∷ b'K' ∷ 10 ∷ b'P' ∷ b'I' ∷ b'C' ∷ b' ' ∷ b'r' ∷ b'e' ∷ b'm' ∷ b'a' ∷ b'p' ∷ b'.' ∷ b'.'
    ∷ b' ' ∷ []

abbrev pub initrd_text : List ℕ
initrd_text =
    b'O' ∷ b'K' ∷ 10 ∷ b'I' ∷ b'n' ∷ b'i' ∷ b't' ∷ b'r' ∷ b'd' ∷ b' ' ∷ b'i' ∷ b'n' ∷ b'i' ∷ b't'
    ∷ b'.' ∷ b'.' ∷ b' ' ∷ []

abbrev pub filesystem_text : List ℕ
filesystem_text =
    b'O' ∷ b'K' ∷ 10 ∷ b'F' ∷ b'i' ∷ b'l' ∷ b'e' ∷ b's' ∷ b'y' ∷ b's' ∷ b't' ∷ b'e' ∷ b'm' ∷ b' '
    ∷ b'i' ∷ b'n' ∷ b'i' ∷ b't' ∷ b' ' ∷ b'(' ∷ b'd' ∷ b'i' ∷ b's' ∷ b'k' ∷ b' ' ∷ b'=' ∷ b' '
    ∷ b'i' ∷ b'n' ∷ b'i' ∷ b't' ∷ b'r' ∷ b'd' ∷ b')' ∷ b'.' ∷ b'.' ∷ b' ' ∷ []

abbrev pub done_text : List ℕ
done_text = b'O' ∷ b'K' ∷ 10 ∷ []

abbrev pub last_text : List ℕ
last_text =
    10 ∷ b'A' ∷ b'f' ∷ b't' ∷ b'e' ∷ b'r' ∷ b' ' ∷ b'5' ∷ b' ' ∷ b's' ∷ b'e' ∷ b'c' ∷ b's' ∷ b','
    ∷ b' ' ∷ b'P' ∷ b'I' ∷ b'T' ∷ b' ' ∷ b'I' ∷ b'S' ∷ b'R' ∷ b' ' ∷ b'w' ∷ b'i' ∷ b'l' ∷ b'l'
    ∷ b' ' ∷ b'c' ∷ b'a' ∷ b'u' ∷ b's' ∷ b'e' ∷ b' ' ∷ b'a' ∷ b' ' ∷ b'p' ∷ b'a' ∷ b'g' ∷ b'e'
    ∷ b' ' ∷ b'f' ∷ b'a' ∷ b'u' ∷ b'l' ∷ b't' ∷ b' ' ∷ b'(' ∷ b't' ∷ b'o' ∷ b' ' ∷ b's' ∷ b'h'
    ∷ b'o' ∷ b'w' ∷ b' ' ∷ b't' ∷ b'h' ∷ b'a' ∷ b't' ∷ b' ' ∷ b'P' ∷ b'I' ∷ b'T' ∷ b',' ∷ b' '
    ∷ b'p' ∷ b'a' ∷ b'g' ∷ b'i' ∷ b'n' ∷ b'g' ∷ b' ' ∷ b'w' ∷ b'o' ∷ b'r' ∷ b'k' ∷ b's' ∷ b')'
    ∷ b':' ∷ 10 ∷ []
