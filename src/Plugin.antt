-- ===== src/Plugin.antt =====
-- The entry points of src/agsplugin.cpp: what the plug-in registers at the editor and at the engine,
-- with the tables and the macros of src/API.h that it is written with.
pub mod Tables
pub mod Headers
pub mod Types
pub mod Prototypes
pub mod Laws
mod Tests
use Prim.Native.String.{String}
use agssock.Base.{
  ℕ, ◌+◌, ◌-◌, ◌^◌, Bool, true, false, Option, none, some, List, [], ◌∷◌, ◌++◌, ltb, if◌then◌else◌,
}
use agssock.Pool.{Pool, new_pool}
use Tables.{
  Name, Entry, method, member, readonly_member, array, class, function_names, reader_names,
}
use Headers.{Declaration, our_script_header}
use Tables.{sock_data_entry, sock_addr_entry, socket_entry}

-- What the engine has been told, and the pool of sockets, if there is one.
pub record Engine : Type 0 where
  pub readers : List Name
  pub functions : List Name
  pub aborted : Bool
  pub pool : Option Pool

-- One line of a table, as its macro expands
unfoldable pub register : Engine → Entry → Engine
unfolding function_names reader_names
register e x = record e {
  readers = e.readers ++ reader_names x;
  functions = e.functions ++ function_names x;
}

unfoldable pub register_all : Engine → List Entry → Engine
unfolding register
register_all e [] = e
register_all e (x ∷ xs) = register_all (register e x) xs

-- `AGS_PluginV2`, which tells the engine that it may use the plug-in, and `AGS_GetPluginName`
abbrev pub plugin_v2 : ℕ
plugin_v2 = 1

abbrev pub plugin_name : String
plugin_name = "Sockets for AGS"

-- `DllMain` does nothing for any reason that Windows gives, and returns TRUE.
abbrev pub dll_main : ℕ → Bool
dll_main reason = true

-- What of the editor the plug-in uses: the script headers that it has been given, and those that were
-- taken back.
pub record Editor : Type 0 where
  pub headers : List (List Declaration)
  pub taken_back : List (List Declaration)

abbrev pub min_editor_version : ℕ
min_editor_version = 1

-- `AGS_EditorStartup`: -1 and nothing registered if the editor is too old, and else 0
unfoldable pub editor_startup : ℕ → Editor → ℕ × Editor
editor_startup version ed =
    if ltb version min_editor_version
    then (2 ^ 32 - 1, ed)
    else (0, record ed { headers = our_script_header ∷ ed.headers })

-- `AGS_EditorShutdown`
unfoldable pub editor_shutdown : Editor → Editor
editor_shutdown ed = record ed { taken_back = our_script_header ∷ ed.taken_back }

-- `AGSSock::Initialize` and `AGSSock::Terminate`
unfoldable pub initialize : Engine → Engine
initialize e = record e { pool = some new_pool }

unfoldable pub terminate : Engine → Engine
terminate e = record e { pool = none }

abbrev pub min_engine_version : ℕ
min_engine_version = 18

-- `AGS_EngineStartup`, for an engine whose `AbortGame` returns
unfoldable pub engine_startup : ℕ → Engine → Engine
unfolding register_all initialize
engine_startup version e =
    let e₁ = if ltb version min_engine_version then record e { aborted = true } else e in
    register_all (register_all (register_all (initialize e₁) sock_data_entry) sock_addr_entry)
      socket_entry

unfoldable pub engine_shutdown : Engine → Engine
unfolding terminate
engine_shutdown e = terminate e
