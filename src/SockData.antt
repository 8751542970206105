-- ===== src/SockData.antt =====
-- src/SockData.cpp and src/SockData.h: byte strings for scripts. `none` is what C++ leaves
-- undefined, or the exception that `std::string` throws for a size that is too large: a negative
-- `ags_t`, since its sizes end at 2 ^ 63 - 1.
pub mod Laws
mod Tests
use mathlib.Core.Option
use agssock.Base.{
  ℕ, zero, suc, ◌+◌, ◌-◌, Option, none, some, List, [], ◌∷◌, ◌++◌, ◌&&◌, length, take, replicate,
  get_elem?, set, c_str, char_of_ags, ags_of_char, is_negative, ltb, ◌==◌, if◌then◌else◌,
}

pub record SockData : Type 0 where
  pub text : List ℕ

-- `SockData_Create`, `CreateEmpty` and `CreateFromString`, less the registration at the engine
unfoldable pub create : ℕ → ℕ → Option SockData
create size byte =
    if is_negative size then none else some (record { text = replicate size (char_of_ags byte) })

abbrev pub create_empty : SockData
create_empty = record { text = [] }

pub create_from_string : List ℕ → SockData
create_from_string str = record { text = c_str str }

unfoldable pub get_size : SockData → ℕ
get_size sd = length sd.text

-- `resize` cuts the string, or fills it up with zeros.
unfoldable pub set_size : SockData → ℕ → Option SockData
set_size sd size =
    if is_negative size
    then none
    else some (record { text = take size sd.text ++ replicate (size - length sd.text) 0 })

-- `data[index]` may be read up to the zero behind the last byte, and that zero may be written only
-- with zero.
unfoldable pub get_char : SockData → ℕ → Option ℕ
get_char sd index =
    if index == length sd.text then some 0 else Option.map ags_of_char (get_elem? sd.text index)

unfoldable pub set_char : SockData → ℕ → ℕ → Option SockData
set_char sd index byte =
    if ltb index (length sd.text)
    then some (record { text = set sd.text index (char_of_ags byte) })
    else if (index == length sd.text) && (char_of_ags byte == 0)
    then some sd
    else none

unfoldable pub as_string : SockData → List ℕ
as_string sd = c_str sd.text

pub clear : SockData → SockData
clear sd = record { text = [] }

-- `Serialize` returns what it has copied to the buffer, whose size is not negative.
unfoldable pub serialize : SockData → ℕ → List ℕ
serialize sd size = take size sd.text

unfoldable pub unserialize : List ℕ → ℕ → SockData
unserialize buffer size = record { text = take size buffer }
