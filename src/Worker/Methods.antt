-- ===== src/Worker/Methods.antt =====
-- pyleaner/worker.py, lines 59 to 82 and 414 to 593: the table `process_funcs`, how a handler takes
-- its keyword arguments, and what each handler does.
use py_leaner.Base.{Bool, true, false, ◌&&◌, ◌||◌, none, some, List, [], ◌∷◌, is_some}
use py_leaner.Base.Text.{Text, codes, text_eq}
use py_leaner.Base.TextDict.{TextDict, get}
use py_leaner.Base.Json.{Json, null, num, bool}

-- The methods that send one RPC call without arguments.
pub data Plain : Type 0 where
  ping debug_document parse_document test_declaration_kind test_declaration_name : Plain
  test_has_params test_params_text test_type_text test_body_text test_body_fields : Plain
  debug_body_fields debug_syntax_tree debug_binder_structure debug_all_snapshots : Plain
  debug_snapshot_info : Plain

pub data Handler : Type 0 where
  plain : Plain → Handler
  echo extract_declarations search_declarations declaration_axioms : Handler
  get_diagnostics get_proof_goal : Handler

-- `process_funcs`
unfoldable pub process_funcs : TextDict Handler
process_funcs =
    (codes "ping", plain ping)
    ∷ (codes "echo", echo)
    ∷ (codes "debug_document", plain debug_document)
    ∷ (codes "parse_document", plain parse_document)
    ∷ (codes "test_declaration_kind", plain test_declaration_kind)
    ∷ (codes "test_declaration_name", plain test_declaration_name)
    ∷ (codes "extract_declarations", extract_declarations)
    ∷ (codes "search_declarations", search_declarations)
    ∷ (codes "declaration_axioms", declaration_axioms)
    ∷ (codes "test_has_params", plain test_has_params)
    ∷ (codes "test_params_text", plain test_params_text)
    ∷ (codes "test_type_text", plain test_type_text)
    ∷ (codes "test_body_text", plain test_body_text)
    ∷ (codes "test_body_fields", plain test_body_fields)
    ∷ (codes "debug_body_fields", plain debug_body_fields)
    ∷ (codes "debug_syntax_tree", plain debug_syntax_tree)
    ∷ (codes "debug_binder_structure", plain debug_binder_structure)
    ∷ (codes "debug_all_snapshots", plain debug_all_snapshots)
    ∷ (codes "debug_snapshot_info", plain debug_snapshot_info)
    ∷ (codes "changecontent", get_diagnostics)
    ∷ (codes "get_diagnostics", get_diagnostics)
    ∷ (codes "get_proof_goal", get_proof_goal)
    ∷ []

-- The parameters without a default, and those with one.
unfoldable pub required : Handler → List Text
required (plain p) = []
required echo = codes "message" ∷ []
required extract_declarations = codes "text" ∷ codes "content_range" ∷ []
required search_declarations = codes "text" ∷ codes "query" ∷ []
required declaration_axioms = codes "text" ∷ codes "declaration_name" ∷ []
required get_diagnostics = codes "text" ∷ codes "content_range" ∷ []
required get_proof_goal = codes "text" ∷ codes "content_range" ∷ codes "position" ∷ []

unfoldable pub optional : Handler → TextDict Json
optional search_declarations =
    (codes "max_results", num 8) ∷ (codes "fuzzy", bool false) ∷ (codes "content_range", null) ∷ []
optional declaration_axioms = (codes "content_range", null) ∷ []
optional _ = []

abbrev has_text : Text → List Text → Bool
has_text k [] = false
has_text k (j ∷ js) = text_eq k j || has_text k js

all_given : List Text → TextDict Json → Bool
all_given [] kwargs = true
all_given (p ∷ ps) kwargs = is_some (get p kwargs) && all_given ps kwargs

all_known : Handler → TextDict Json → Bool
unfolding required optional
all_known h [] = true
all_known h ((k, v) ∷ kwargs) =
    (has_text k (required h) || is_some (get k (optional h))) && all_known h kwargs

-- Python's check of `func(**kwargs)`: a `TypeError` is raised unless each parameter without a default
-- is given and each argument names a parameter.
unfoldable pub accepts : Handler → TextDict Json → Bool
unfolding all_given all_known get required optional
accepts h kwargs = all_given (required h) kwargs && all_known h kwargs

-- The value of a parameter: the argument, or the default.
unfoldable pub argument : Handler → Text → TextDict Json → Json
unfolding optional get
argument h k kwargs = elim (get k kwargs) [
  | some v ↦ v
  | none ↦ elim (get k (optional h)) [ some v ↦ v | none ↦ null ]
]

unfoldable pub rpc_name : Plain → Text
rpc_name ping = codes "LeanLspExtension.ping"
rpc_name debug_document = codes "LeanLspExtension.debugDocument"
rpc_name parse_document = codes "LeanLspExtension.parseDocument"
rpc_name test_declaration_kind = codes "LeanLspExtension.testDeclarationKind"
rpc_name test_declaration_name = codes "LeanLspExtension.testDeclarationName"
rpc_name test_has_params = codes "LeanLspExtension.testHasParams"
rpc_name test_params_text = codes "LeanLspExtension.testParamsText"
rpc_name test_type_text = codes "LeanLspExtension.testTypeText"
rpc_name test_body_text = codes "LeanLspExtension.testBodyText"
rpc_name test_body_fields = codes "LeanLspExtension.testBodyFields"
rpc_name debug_body_fields = codes "LeanLspExtension.debugBodyFields"
rpc_name debug_syntax_tree = codes "LeanLspExtension.debugSyntaxTree"
rpc_name debug_binder_structure = codes "LeanLspExtension.debugBinderStructure"
rpc_name debug_all_snapshots = codes "LeanLspExtension.debugAllSnapshots"
rpc_name debug_snapshot_info = codes "LeanLspExtension.debugSnapshotInfo"
