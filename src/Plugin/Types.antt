-- ===== src/Plugin/Types.antt =====
-- The types of the prototypes of src/SockData.h, src/SockAddr.h and src/Socket.h, beside the types that the script
-- headers there declare. A `const` does not count.
pub mod Laws
use Prim.Native.String.{String}
use agssock.Base.{
  ℕ, zero, suc, ◌+◌, ◌≡◌, refl, Bool, true, false, ◌&&◌, ◌||◌, Option, none, some, List, [], ◌∷◌,
  ◌++◌, map, ◌==◌, if◌then◌else◌,
}
use agssock.Plugin.Tables.{Name, codes}
use agssock.Plugin.Headers.{
  Import, static_function, function, attribute, readonly_attribute, array_attribute, Declaration,
  our_script_header,
}

-- A type of a prototype: `ags_t`, `const char *`, a pointer to a managed struct, or `void`.
pub data CType : Type 0 where
  integral text nothing : CType
  object : Name → CType

pub record Signature : Type 0 where
  pub name : Name
  pub result : CType
  pub params : List CType

abbrev pub eq_names : Name → Name → Bool
eq_names [] [] = true
eq_names (a ∷ xs) (b ∷ ys) = (a == b) && eq_names xs ys
eq_names _ _ = false

abbrev pub eq_types : CType → CType → Bool
eq_types integral integral = true
eq_types text text = true
eq_types nothing nothing = true
eq_types (object a) (object b) = eq_names a b
eq_types _ _ = false

abbrev pub eq_params : List CType → List CType → Bool
eq_params [] [] = true
eq_params (a ∷ xs) (b ∷ ys) = eq_types a b && eq_params xs ys
eq_params _ _ = false

abbrev pub eq_signatures : Signature → Signature → Bool
eq_signatures a b =
    eq_names a.name b.name && eq_types a.result b.result && eq_params a.params b.params

abbrev pub find : Name → List Signature → Option Signature
find n [] = none
find n (d ∷ ds) = if eq_names d.name n then some d else find n ds

-- The first word of a declaration
abbrev first_word : Name → Name
first_word [] = []
first_word (c ∷ cs) = if c == 0x20 then [] else c ∷ first_word cs

abbrev is_word : Name → List String → Bool
is_word w [] = false
is_word w (s ∷ ss) = eq_names w (codes s) || is_word w ss

-- How the engine passes a value of a type that a script header names, alone or before the name of a
-- parameter
abbrev pub passed_as : String → CType
passed_as s =
    let w = first_word (codes s) in
    if is_word w ("int" ∷ "char" ∷ "long" ∷ "bool" ∷ "SockError" ∷ [])
    then integral
    else if is_word w ("String" ∷ "const" ∷ [])
    then text
    else if is_word w ("void" ∷ [])
    then nothing
    else object w

abbrev c_name : String → String → String → Name
c_name c kind x = codes c ++ codes "_" ++ codes kind ++ codes x

-- The functions that an import stands for, with their types
abbrev pub declared_by : String → Import → List Signature
declared_by c (static_function t x ps) =
    record { name = c_name c "" x; result = passed_as t; params = map passed_as ps } ∷ []
declared_by c (function t x ps) =
    record {
      name = c_name c "" x;
      result = passed_as t;
      params = object (codes c) ∷ map passed_as ps;
    }
    ∷ []
declared_by c (attribute t x) =
    record { name = c_name c "get_" x; result = passed_as t; params = object (codes c) ∷ [] }
    ∷ record {
      name = c_name c "set_" x;
      result = nothing;
      params = object (codes c) ∷ passed_as t ∷ [];
    }
    ∷ []
declared_by c (readonly_attribute t x) =
    record { name = c_name c "get_" x; result = passed_as t; params = object (codes c) ∷ [] } ∷ []
declared_by c (array_attribute t x) =
    record {
      name = c_name c "geti_" x;
      result = passed_as t;
      params = object (codes c) ∷ integral ∷ [];
    }
    ∷ record {
      name = c_name c "seti_" x;
      result = nothing;
      params = object (codes c) ∷ integral ∷ passed_as t ∷ [];
    }
    ∷ []

abbrev declared_in : String → List Import → List Signature
declared_in c [] = []
declared_in c (i ∷ is) = declared_by c i ++ declared_in c is

abbrev pub declared : List Declaration → List Signature
declared [] = []
declared (d ∷ ds) = declared_in d.struct_name d.imports ++ declared ds

abbrev pub set_option : Name
set_option = codes "Socket_SetOption"

-- Whether each signature but one is found among others
abbrev pub agree : Name → List Signature → List Signature → Bool
agree but [] ps = true
agree but (d ∷ ds) ps =
    (eq_names d.name but || elim (find d.name ps) [ none ↦ false | some p ↦ eq_signatures p d ])
    && agree but ds ps
