-- ===== src/SockData/Tests.antt =====
-- Data objects of three characters.
use agssock.Base.{◌≡◌, some, [], ◌∷◌, arith, ags_of_char, char_of_ags}
use agssock.SockData.{SockData, get_size, get_char, set_char}
use agssock.SockData.Laws.{set_char-get_char}

abbrev three : SockData
three = record { text = 1 ∷ 2 ∷ 3 ∷ [] }

set_char-get_char_example :
    (sd' : SockData) × (set_char three 1 300 ≡ some sd')
    × (get_size sd' ≡ get_size three)
    × (get_char sd' 1 ≡ some (ags_of_char (char_of_ags 300)))
    × (get_char sd' 2 ≡ get_char three 2)
unfolding get_size
set_char-get_char_example = set_char-get_char three 1 2 300 (omega arith) (omega arith)
