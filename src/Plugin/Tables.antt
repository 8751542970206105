-- ===== src/Plugin/Tables.antt =====
-- The tables SOCKDATA_ENTRY, SOCKADDR_ENTRY and SOCKET_ENTRY of src/SockData.h, src/SockAddr.h and
-- src/Socket.h, and what the macros of src/API.h make of their lines.
use Prim.Native.String.{String}
use Prim.Native.Char.{code}
use agssock.Base.{ℕ, ◌+◌, List, [], ◌∷◌, ◌++◌}

-- A name, by the codes of its characters
abbrev pub Name : Type 0
Name = List ℕ

abbrev pub codes : String → Name
codes String.[] = []
codes (String.◌∷◌ c s) = code c ∷ codes s

-- The lines of a table: AGS_CLASS, AGS_METHOD with the number of parameters, AGS_MEMBER,
-- AGS_READONLY and AGS_ARRAY.
pub data Entry : Type 0 where
  class : String → Entry
  method : String → String → ℕ → Entry
  member readonly_member array : String → String → Entry

-- The number of parameters is one digit.
abbrev pub method_name : String → String → ℕ → Name
method_name c x a = codes c ++ codes "::" ++ codes x ++ codes "^" ++ ((0x30 + a) ∷ [])

abbrev pub accessor_name : String → String → String → Name
accessor_name c kind x = codes c ++ codes "::" ++ codes kind ++ codes x

-- The names given to `RegisterScriptFunction`, and to `AddManagedObjectReader`
unfoldable pub function_names : Entry → List Name
function_names (class c) = []
function_names (method c x a) = method_name c x a ∷ []
function_names (member c x) = accessor_name c "get_" x ∷ accessor_name c "set_" x ∷ []
function_names (readonly_member c x) = accessor_name c "get_" x ∷ []
function_names (array c x) = accessor_name c "geti_" x ∷ accessor_name c "seti_" x ∷ []

unfoldable pub reader_names : Entry → List Name
reader_names (class c) = codes c ∷ []
reader_names _ = []

abbrev pub sock_data_entry : List Entry
sock_data_entry =
    class "SockData"
    ∷ method "SockData" "Create" 2
    ∷ method "SockData" "CreateEmpty" 0
    ∷ method "SockData" "CreateFromString" 1
    ∷ member "SockData" "Size"
    ∷ array "SockData" "Chars"
    ∷ method "SockData" "AsString" 0
    ∷ method "SockData" "Clear" 0
    ∷ []

abbrev pub sock_addr_entry : List Entry
sock_addr_entry =
    class "SockAddr"
    ∷ method "SockAddr" "Create" 1
    ∷ method "SockAddr" "CreateFromString" 2
    ∷ method "SockAddr" "CreateFromData" 1
    ∷ method "SockAddr" "CreateIP" 2
    ∷ method "SockAddr" "CreateIPv6" 2
    ∷ member "SockAddr" "Port"
    ∷ member "SockAddr" "Address"
    ∷ member "SockAddr" "IP"
    ∷ method "SockAddr" "GetData" 0
    ∷ []

abbrev pub socket_entry : List Entry
socket_entry =
    class "Socket"
    ∷ method "Socket" "Create" 3
    ∷ method "Socket" "CreateUDP" 0
    ∷ method "Socket" "CreateTCP" 0
    ∷ method "Socket" "CreateUDPv6" 0
    ∷ method "Socket" "CreateTCPv6" 0
    ∷ member "Socket" "Tag"
    ∷ readonly_member "Socket" "Local"
    ∷ readonly_member "Socket" "Remote"
    ∷ readonly_member "Socket" "Valid"
    ∷ method "Socket" "ErrorValue" 0
    ∷ method "Socket" "ErrorString" 0
    ∷ method "Socket" "Bind" 1
    ∷ method "Socket" "Listen" 1
    ∷ method "Socket" "Connect" 2
    ∷ method "Socket" "Accept" 0
    ∷ method "Socket" "Close" 0
    ∷ method "Socket" "Send" 1
    ∷ method "Socket" "SendTo" 2
    ∷ method "Socket" "Recv" 0
    ∷ method "Socket" "RecvFrom" 1
    ∷ method "Socket" "SendData" 1
    ∷ method "Socket" "SendDataTo" 2
    ∷ method "Socket" "RecvData" 0
    ∷ method "Socket" "RecvDataFrom" 1
    ∷ method "Socket" "GetOption" 2
    ∷ method "Socket" "SetOption" 3
    ∷ []
