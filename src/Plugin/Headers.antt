-- ===== src/Plugin/Headers.antt =====
-- SOCKDATA_HEADER, SOCKADDR_HEADER and SOCKET_HEADER of src/SockData.h, src/SockAddr.h and
-- src/Socket.h: what the plug-in declares to scripts, without the comments.
use Prim.Native.String.{String}
use agssock.Base.{List, [], ◌∷◌, ◌++◌, length}
use agssock.Plugin.Tables.{Name, method_name, accessor_name}

-- An `import` of a managed struct, with its type: a function with its parameters, static or not, and
-- an attribute, which may be read only or an array.
pub data Import : Type 0 where
  static_function function : String → String → List String → Import
  attribute readonly_attribute array_attribute : String → String → Import

-- A managed struct with its fields and its imports
pub record Declaration : Type 0 where
  pub struct_name : String
  pub fields : List String
  pub imports : List Import

-- The names under which the engine looks an import up, by its documented convention
unfoldable pub import_names : String → Import → List Name
import_names c (static_function t x ps) = method_name c x (length ps) ∷ []
import_names c (function t x ps) = method_name c x (length ps) ∷ []
import_names c (attribute t x) = accessor_name c "get_" x ∷ accessor_name c "set_" x ∷ []
import_names c (readonly_attribute t x) = accessor_name c "get_" x ∷ []
import_names c (array_attribute t x) = accessor_name c "geti_" x ∷ accessor_name c "seti_" x ∷ []

unfoldable pub names_of_imports : String → List Import → List Name
unfolding import_names
names_of_imports c [] = []
names_of_imports c (i ∷ is) = import_names c i ++ names_of_imports c is

abbrev pub sock_data_header : Declaration
sock_data_header = record {
  struct_name = "SockData";
  fields = [];
  imports =
      static_function "SockData *" "Create" ("int size" ∷ "char defchar = 0" ∷ [])
      ∷ static_function "SockData *" "CreateEmpty" []
      ∷ static_function "SockData *" "CreateFromString" ("const string str" ∷ [])
      ∷ attribute "int" "Size"
      ∷ array_attribute "char" "Chars"
      ∷ function "String" "AsString" []
      ∷ function "void" "Clear" []
      ∷ [];
}

abbrev pub sock_addr_header : Declaration
sock_addr_header = record {
  struct_name = "SockAddr";
  fields = [];
  imports =
      static_function "SockAddr *" "Create" ("int type = IPv4" ∷ [])
      ∷ static_function "SockAddr *" "CreateFromString"
          ("const string address" ∷ "int type = IPv4" ∷ [])
      ∷ static_function "SockAddr *" "CreateFromData" ("SockData *" ∷ [])
      ∷ static_function "SockAddr *" "CreateIP" ("const string address" ∷ "int port" ∷ [])
      ∷ static_function "SockAddr *" "CreateIPv6" ("const string address" ∷ "int port" ∷ [])
      ∷ attribute "int" "Port"
      ∷ attribute "String" "Address"
      ∷ attribute "String" "IP"
      ∷ function "SockData *" "GetData" []
      ∷ [];
}

abbrev pub socket_header : Declaration
socket_header = record {
  struct_name = "Socket";
  fields =
      "readonly int ID" ∷ "readonly int Domain" ∷ "readonly int Type" ∷ "readonly int Protocol"
      ∷ "readonly int LastError" ∷ [];
  imports =
      static_function "Socket *" "Create" ("int domain" ∷ "int type" ∷ "int protocol = 0" ∷ [])
      ∷ static_function "Socket *" "CreateUDP" []
      ∷ static_function "Socket *" "CreateTCP" []
      ∷ static_function "Socket *" "CreateUDPv6" []
      ∷ static_function "Socket *" "CreateTCPv6" []
      ∷ attribute "String" "Tag"
      ∷ readonly_attribute "SockAddr *" "Local"
      ∷ readonly_attribute "SockAddr *" "Remote"
      ∷ readonly_attribute "bool" "Valid"
      ∷ function "SockError" "ErrorValue" []
      ∷ function "String" "ErrorString" []
      ∷ function "bool" "Bind" ("SockAddr *local" ∷ [])
      ∷ function "bool" "Listen" ("int backlog = 10" ∷ [])
      ∷ function "bool" "Connect" ("SockAddr *host" ∷ "bool async = false" ∷ [])
      ∷ function "Socket *" "Accept" []
      ∷ function "void" "Close" []
      ∷ function "bool" "Send" ("const string msg" ∷ [])
      ∷ function "bool" "SendTo" ("SockAddr *target" ∷ "const string msg" ∷ [])
      ∷ function "String" "Recv" []
      ∷ function "String" "RecvFrom" ("SockAddr *source" ∷ [])
      ∷ function "bool" "SendData" ("SockData *data" ∷ [])
      ∷ function "bool" "SendDataTo" ("SockAddr *target" ∷ "SockData *data" ∷ [])
      ∷ function "SockData *" "RecvData" []
      ∷ function "SockData *" "RecvDataFrom" ("SockAddr *source" ∷ [])
      ∷ function "long" "GetOption" ("int level" ∷ "int option" ∷ [])
      ∷ function "bool" "SetOption" ("int level" ∷ "int option" ∷ "long value" ∷ [])
      ∷ [];
}

-- `ourScriptHeader`
abbrev pub our_script_header : List Declaration
our_script_header = sock_data_header ∷ sock_addr_header ∷ socket_header ∷ []

unfoldable pub names_of_header : List Declaration → List Name
unfolding names_of_imports
names_of_header [] = []
names_of_header (d ∷ ds) = names_of_imports d.struct_name d.imports ++ names_of_header ds
