-- ===== src/Plugin/Tests.antt =====
-- The start of the plug-in at an editor and an engine that know of nothing.
use agssock.Base.{◌↔◌, ◌≡◌, false, true, none, some, [], ◌∷◌, ◌++◌, map, ltb, arith, if◌then◌else◌}
use agssock.Pool.{new_pool}
use agssock.Plugin.Tables.{Name, codes}
use agssock.Plugin.Headers.{our_script_header, names_of_header}
use agssock.Plugin.{
  Engine, Editor, editor_startup, editor_shutdown, engine_startup, min_engine_version,
}
use agssock.Plugin.Types.{integral, object, Signature, find, declared}
use agssock.Plugin.Types.Laws.{script_types_match}
use agssock.Plugin.Prototypes.{prototypes}
use agssock.Plugin.Laws.{startup_exports_header}

abbrev new_engine : Engine
new_engine = record { readers = []; functions = []; aborted = false; pool = none }

abbrev new_editor : Editor
new_editor = record { headers = []; taken_back = [] }

startup_exports_header_example :
    let (code, ed') = editor_startup 1 new_editor in
    let e' = engine_startup 17 new_engine in
    (code ≡ 0)
    × (ed'.headers ≡ our_script_header ∷ new_editor.headers)
    × ((editor_shutdown ed').taken_back ≡ our_script_header ∷ new_editor.taken_back)
    × (e'.functions ≡ new_engine.functions ++ names_of_header our_script_header)
    × (e'.readers ≡ new_engine.readers ++ map (λ d. codes d.struct_name) our_script_header)
    × (e'.pool ≡ some new_pool)
    × (e'.aborted ≡ (if ltb 17 min_engine_version then true else new_engine.aborted))
startup_exports_header_example = startup_exports_header 1 17 new_editor new_engine (omega arith)

abbrev connect_name : Name
connect_name = codes "Socket_Connect"

abbrev connect_type : Signature
connect_type = record {
  name = connect_name;
  result = integral;
  params = object (codes "Socket") ∷ object (codes "SockAddr") ∷ integral ∷ [];
}

script_types_match_example :
    (find connect_name (declared our_script_header) ≡ some connect_type)
    ↔ (find connect_name prototypes ≡ some connect_type)
script_types_match_example = script_types_match connect_name connect_type (λ e. cc e)
