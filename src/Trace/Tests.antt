-- ===== src/Trace/Tests.antt =====
-- Instances of the theorems on the progress channel.
use dexpi_datalog.Prelude.{String, ◌≡◌}
use dexpi_datalog.Json.{Json, null, int, str, arr, obj, nil, cons, end, field, pos}
use dexpi_datalog.Trace.Progress.{max_progress_detail_keys, sanitize_progress_tool_input}
use dexpi_datalog.Trace.Progress.Safe.{
  IsSafeFields, sanitize_progress_tool_input-IsSafe, sanitize_progress_tool_input_idem,
}

abbrev same : String → String
same s = s

abbrev arguments : Json
arguments = obj (
    field "api_key" (str "k") (
      field "class"
        (arr (cons null (cons (int (pos 3)) (cons (obj (field "name" (str "P-1") end)) nil)))) end))

sanitize_progress_tool_input-IsSafe_example :
    IsSafeFields same (sanitize_progress_tool_input same arguments) max_progress_detail_keys 1
sanitize_progress_tool_input-IsSafe_example = sanitize_progress_tool_input-IsSafe same arguments

sanitize_progress_tool_input_idem_example :
    sanitize_progress_tool_input same (obj (sanitize_progress_tool_input same arguments))
    ≡ sanitize_progress_tool_input same arguments
sanitize_progress_tool_input_idem_example = sanitize_progress_tool_input_idem same arguments
