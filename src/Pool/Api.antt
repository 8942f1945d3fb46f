-- ===== src/Pool/Api.antt =====
-- pyleaner/pool.py, lines 183 to 363: the public methods of the pool, each as the task that it
-- submits, and what `_submit` makes of the response.
use py_leaner.Base.{
  ℕ, Bool, true, ◌&&◌, ◌||◌, Option, none, some, [], ◌∷◌, ltb, leb, if◌then◌else◌, mem,
}
use py_leaner.Base.Text.{Text, codes}
use py_leaner.Base.TextDict.{TextDict}
use py_leaner.Task.{Error, Response, succeeded, failed}
use py_leaner.Base.Json.{Json, num, str, bool, obj, end, field}

-- The methods that take no argument but the timeout.
pub data Probe : Type 0 where
  ping debug_document parse_document test_declaration_kind test_declaration_name : Probe
  test_has_params test_params_text test_type_text test_body_text test_body_fields : Probe
  debug_body_fields debug_syntax_tree debug_binder_structure debug_all_snapshots : Probe
  debug_snapshot_info : Probe

-- A call of a public method. An omitted `content_range` is `none`.
pub data ApiCall : Type 0 where
  probe : Probe → ApiCall
  echo : Text → ApiCall
  extract_declarations : Text → Option Json → ApiCall
  search_declarations : Text → Text → ℕ → Bool → Option Json → ApiCall
  declaration_axioms : Text → Text → Option Json → ApiCall
  get_diagnostics : Text → Option Json → ApiCall
  get_proof_goal : Text → Json → Option Json → ApiCall

abbrev position_at : ℕ → Json
position_at line = obj (field (codes "line") (num line) (field (codes "character") (num 0) end))

-- The range from the start to line 999, which stands for the whole file.
abbrev pub whole_file : Json
whole_file = obj (field (codes "start") (position_at 0) (field (codes "end") (position_at 999) end))

abbrev pub empty_range : Json
empty_range = obj end

abbrev or_range : Option Json → Json → Json
or_range none r = r
or_range (some r) _ = r

-- `str.strip` leaves something: a code point that is no white space.
is_space : ℕ → Bool
is_space c =
    leb 9 c && leb c 13
    || leb 28 c && leb c 32
    || leb 0x2000 c && leb c 0x200a
    || mem c (0x85 ∷ 0xa0 ∷ 0x1680 ∷ 0x2028 ∷ 0x2029 ∷ 0x202f ∷ 0x205f ∷ 0x3000 ∷ [])

unfoldable pub is_blank : Text → Bool
unfolding is_space
is_blank [] = true
is_blank (c ∷ s) = is_space c && is_blank s

unfoldable pub probe_name : Probe → Text
probe_name ping = codes "ping"
probe_name debug_document = codes "debug_document"
probe_name parse_document = codes "parse_document"
probe_name test_declaration_kind = codes "test_declaration_kind"
probe_name test_declaration_name = codes "test_declaration_name"
probe_name test_has_params = codes "test_has_params"
probe_name test_params_text = codes "test_params_text"
probe_name test_type_text = codes "test_type_text"
probe_name test_body_text = codes "test_body_text"
probe_name test_body_fields = codes "test_body_fields"
probe_name debug_body_fields = codes "debug_body_fields"
probe_name debug_syntax_tree = codes "debug_syntax_tree"
probe_name debug_binder_structure = codes "debug_binder_structure"
probe_name debug_all_snapshots = codes "debug_all_snapshots"
probe_name debug_snapshot_info = codes "debug_snapshot_info"

-- What a method does before it waits: it raises `ValueError`, or it submits a task with a type and
-- keyword arguments.
pub data Request : Type 0 where
  value_error : Text → Request
  submit : Text → TextDict Json → Request

unfoldable pub request_of : ApiCall → Request
unfolding is_blank probe_name
request_of (probe p) = submit (probe_name p) []
request_of (echo message) = submit (codes "echo") ((codes "message", str message) ∷ [])
request_of (extract_declarations text range) =
    submit (codes "extract_declarations")
      ((codes "text", str text) ∷ (codes "content_range", or_range range whole_file) ∷ [])
request_of (search_declarations text query max_results fuzzy range) =
    if ltb max_results 1
    then value_error (codes "max_results must be at least one")
    else submit (codes "search_declarations") (
        (codes "text", str text)
        ∷ (codes "query", str query)
        ∷ (codes "max_results", num max_results)
        ∷ (codes "fuzzy", bool fuzzy)
        ∷ (codes "content_range", or_range range empty_range)
        ∷ [])
request_of (declaration_axioms text name range) =
    if is_blank name
    then value_error (codes "declaration_name must not be empty")
    else submit (codes "declaration_axioms") (
        (codes "text", str text)
        ∷ (codes "declaration_name", str name)
        ∷ (codes "content_range", or_range range empty_range)
        ∷ [])
request_of (get_diagnostics text range) =
    submit (codes "changecontent")
      ((codes "text", str text) ∷ (codes "content_range", or_range range empty_range) ∷ [])
request_of (get_proof_goal text position range) = submit (codes "get_proof_goal") (
    (codes "text", str text)
    ∷ (codes "content_range", or_range range whole_file)
    ∷ (codes "position", position)
    ∷ [])

-- What `_submit` does with what comes out of the result queue: the content, a RuntimeError with the
-- response's error, or the `queue.Empty` of the timeout.
pub data Waited : Type 0 where
  given : Json → Waited
  failure : Error → Waited
  timed_out : Waited

unfoldable pub waited_of : Option Response → Waited
waited_of none = timed_out
waited_of (some (succeeded content)) = given content
waited_of (some (failed error toxic reason)) = failure error
