-- ===== src/Plugin/Laws.antt =====
-- What src/agsplugin.cpp registers at the engine is what it declares to scripts.
use agssock.Base.{
  ℕ, ◌≡◌, refl, ap, sym, ◌∙◌, Bool, true, false, some, List, [], ◌∷◌, ◌++◌, map, ltb, arith,
  if◌then◌else◌, append_assoc, append-nil, ◌≤◌,
}
use agssock.Pool.{new_pool}
use agssock.Plugin.Tables.{
  Name, Entry, codes, function_names, reader_names, sock_data_entry, sock_addr_entry, socket_entry,
}
use agssock.Plugin.Headers.{our_script_header, names_of_header}
use agssock.Plugin.{
  Engine, register, register_all, initialize, engine_startup, min_engine_version, Editor,
  editor_startup, editor_shutdown, min_editor_version,
}

all_functions : List Entry → List Name
all_functions [] = []
all_functions (x ∷ xs) = function_names x ++ all_functions xs

all_readers : List Entry → List Name
all_readers [] = []
all_readers (x ∷ xs) = reader_names x ++ all_readers xs

register_all-names :
    (e : Engine) (xs : List Entry)
    → ((register_all e xs).functions ≡ e.functions ++ all_functions xs)
      × ((register_all e xs).readers ≡ e.readers ++ all_readers xs)
      × ((register_all e xs).pool ≡ e.pool)
      × ((register_all e xs).aborted ≡ e.aborted)
unfolding register_all register all_functions all_readers
register_all-names e [] = (sym (append-nil e.functions), sym (append-nil e.readers), refl, refl)
register_all-names e (x ∷ xs) =
    let (functions, readers, pool, aborted) = register_all-names (register e x) xs in
    (
      functions ∙ append_assoc e.functions (function_names x) (all_functions xs),
      readers ∙ append_assoc e.readers (reader_names x) (all_readers xs),
      pool,
      aborted,
    )

-- The three tables together
abbrev all_entries : List Entry
all_entries = sock_data_entry ++ sock_addr_entry ++ socket_entry

register_all-append :
    (e : Engine) (xs ys : List Entry)
    → register_all (register_all e xs) ys ≡ register_all e (xs ++ ys)
unfolding register_all
register_all-append e [] ys = refl
register_all-append e (x ∷ xs) ys = register_all-append (register e x) xs ys

tables_match : all_functions all_entries ≡ names_of_header our_script_header
unfolding all_functions function_names names_of_header
tables_match = refl

readers_match : all_readers all_entries ≡ map (λ d. codes d.struct_name) our_script_header
unfolding all_readers reader_names
readers_match = refl

-- What the check of the version leaves of the engine.
warned :
    (b : Bool) (e : Engine)
    → let e₁ : Engine = if b then record e { aborted = true } else e in
      (e₁.functions ≡ e.functions)
      × (e₁.readers ≡ e.readers)
      × (e₁.aborted ≡ (if b then true else e.aborted))
warned true e = (refl, refl, refl)
warned false e = (refl, refl, refl)

started_lem :
    (version : ℕ) (e : Engine)
    → let e₁ = if ltb version min_engine_version then record e { aborted = true } else e in
      engine_startup version e ≡ register_all (initialize e₁) all_entries
unfolding engine_startup
started_lem version e =
    let e₁ : Engine = if ltb version min_engine_version then record e { aborted = true } else e in
    ap (λ a. register_all a socket_entry)
      (register_all-append (initialize e₁) sock_data_entry sock_addr_entry)
    ∙ register_all-append (initialize e₁) (sock_data_entry ++ sock_addr_entry) socket_entry

-- For an editor that is not too old, and any engine: the editor is given the script header, which it is
-- told to take back when the plug-in is left, and the engine is given a function under the name of each
-- import that the header declares, in its order, with a reader for each struct of it, and no other. The
-- pool is new. A game on an engine older than version 18 is asked to abort, and no other.
pub startup_exports_header :
    (editor_version engine_version : ℕ) (ed : Editor) (e : Engine)
    → min_editor_version ≤ editor_version
    → let (code, ed') = editor_startup editor_version ed in
      let e' = engine_startup engine_version e in
      (code ≡ 0)
      × (ed'.headers ≡ our_script_header ∷ ed.headers)
      × ((editor_shutdown ed').taken_back ≡ our_script_header ∷ ed.taken_back)
      × (e'.functions ≡ e.functions ++ names_of_header our_script_header)
      × (e'.readers ≡ e.readers ++ map (λ d. codes d.struct_name) our_script_header)
      × (e'.pool ≡ some new_pool)
      × (e'.aborted ≡ (if ltb engine_version min_engine_version then true else e.aborted))
unfolding editor_startup editor_shutdown initialize
startup_exports_header editor_version engine_version ed e recent =
    let accepted : ltb editor_version min_editor_version ≡ false = ground arith in
    let e₁ : Engine =
      if ltb engine_version min_engine_version then record e { aborted = true } else e in
    let (functions, readers, pool, aborted) = register_all-names (initialize e₁) all_entries in
    let start = started_lem engine_version e in
    let (functions₁, readers₁, aborted₁) = warned (ltb engine_version min_engine_version) e in
    rw accepted (
      refl,
      refl,
      refl,
      ap (λ a. a.functions) start
          ∙ functions
          ∙ ap (λ n. n ++ all_functions all_entries) functions₁
          ∙ ap (λ n. e.functions ++ n) tables_match,
      ap (λ a. a.readers) start
          ∙ readers
          ∙ ap (λ n. n ++ all_readers all_entries) readers₁
          ∙ ap (λ n. e.readers ++ n) readers_match,
      ap (λ a. a.pool) start ∙ pool,
      ap (λ a. a.aborted) start ∙ aborted ∙ aborted₁,
    )
