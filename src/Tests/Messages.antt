-- ===== src/Tests/Messages.antt =====
-- Runs of the routing of messages and of the error output.
use py_leaner.Base.{ℕ, true, false, ◌≡◌, refl, Option, none, some, List, [], ◌∷◌, ◌++◌, All}
use py_leaner.Base.Text.{Text, codes}
use py_leaner.Base.TextDict.{get}
use py_leaner.Base.Dict.{lookup}
use py_leaner.Base.Json.{Json, num, str, obj, end, field}
use py_leaner.Task.{Message}
use py_leaner.Pool.{Worker, get_worker_for_uri}
use py_leaner.Observability.Lines.{drop_white_end}
use py_leaner.Client.Messages.{
  Inbox, Turn, blank, received, read_stdout, handle_message, handle_object, handle_response,
  respond_to, handle_notification, handle_publish_diagnostics, route_optional, route_json,
  route_or_buffer, route_in, buffer,
}
use py_leaner.Client.Messages.Opening.{for_uri, queue_for, open_document}
use py_leaner.Client.Messages.Opening.Served.{open_document_delivers}
use py_leaner.Client.Messages.Responses.{responses, and_more, read_stdout-responses}
use py_leaner.Client.Terminal.{
  ErrorTurn, ended, nothing, line, read_stderr, is_fatal, line_text, sanitize_for_terminal, shown,
}
use py_leaner.Client.Terminal.Flagged.{lines_of, IsFlagged, IsShown, read_stderr-IsFlagged}

abbrev uri : Text
uri = codes "file:///w/worker_1.lean"

abbrev notice : ℕ → Message
notice n = record { method = codes "$/lean/fileProgress"; params = num n }

abbrev worker : Worker
worker = record {
  worker_id = 1;
  uri = uri;
  ready = false;
  task_queue = [];
  current_task = none;
  notification_queue = [];
  document_version = 0;
  session_id = none;
  connected = false;
}

abbrev inbox : Inbox
inbox = record { pending = (4, []) ∷ (7, []) ∷ []; workers = none; buffers = [] }

open_document_delivers_example :
    queue_for uri
      (open_document uri
        (worker ∷ [])
        ((uri, notice 0) ∷ (codes "other", notice 9) ∷ [])
        ((uri, notice 1) ∷ [])
        ((uri, notice 2) ∷ [])
        inbox).workers
    ≡ for_uri uri ((uri, notice 1) ∷ [])
      ++ (for_uri uri ((uri, notice 0) ∷ (codes "other", notice 9) ∷ [])
          ++ for_uri uri ((uri, notice 2) ∷ []))
unfolding get_worker_for_uri
open_document_delivers_example =
    open_document_delivers uri (worker ∷ []) ((uri, notice 0) ∷ (codes "other", notice 9) ∷ [])
      ((uri, notice 1) ∷ []) ((uri, notice 2) ∷ []) inbox refl refl refl

abbrev answer : ℕ → ℕ → Option Json
answer id n = some (obj (field (codes "id") (num id) (field (codes "result") (num n) end)))

abbrev published : Option Json
published = some (
    obj (
      field (codes "method") (str (codes "textDocument/publishDiagnostics"))
        (field (codes "params") (obj (field (codes "uri") (str uri) end)) end)))

abbrev turns : List Turn
turns =
    received (answer 7 1)
    ∷ received published
    ∷ blank
    ∷ received (answer 4 2)
    ∷ received none
    ∷ received (answer 7 3)
    ∷ []

abbrev inbox_after : Inbox
inbox_after = record inbox {
  pending =
      (4, obj (field (codes "id") (num 4) (field (codes "result") (num 2) end)) ∷ [])
      ∷ (
        7,
        obj (field (codes "id") (num 7) (field (codes "result") (num 1) end))
            ∷ obj (field (codes "id") (num 7) (field (codes "result") (num 3) end))
            ∷ [],
      )
      ∷ [];
}

turns_read : read_stdout turns inbox ≡ (inbox_after, true)
unfolding read_stdout handle_message handle_object handle_response respond_to handle_notification
    handle_publish_diagnostics route_optional route_json route_or_buffer route_in buffer get
turns_read = refl

read_stdout-responses_example :
    lookup 7 inbox_after.pending ≡ and_more (responses 7 turns) (lookup 7 inbox.pending)
read_stdout-responses_example = read_stdout-responses turns inbox inbox_after 7 turns_read

-- A response that is a number has no `in`, and ends the reading.
number_read : read_stdout (received (some (num 3)) ∷ turns) inbox ≡ (inbox, false)
unfolding read_stdout handle_message
number_read = refl

abbrev output : List ErrorTurn
output =
    line (codes "warning\t" ++ 3 ∷ codes "x \n")
    ∷ nothing
    ∷ line (codes "INTERNAL PANIC: out of memory\n")
    ∷ ended
    ∷ []

output_read : read_stderr output ≡ (
  (codes "warning\t\\x03x") ∷ codes "INTERNAL PANIC: out of memory" ∷ [],
  codes "INTERNAL PANIC: out of memory" ∷ [],
)
unfolding read_stderr is_fatal line_text sanitize_for_terminal shown drop_white_end
output_read = refl

read_stderr-IsFlagged_example :
    All (IsFlagged (read_stderr output).1) (lines_of output)
    × All (All IsShown) (read_stderr output).0
read_stderr-IsFlagged_example = read_stderr-IsFlagged output
