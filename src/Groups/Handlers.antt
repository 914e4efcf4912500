-- ===== src/Groups/Handlers.antt =====
-- The handlers of exceptions that the tests of src/sandbox_tester/group_04.py, group_05.py and
-- group_08.py share.
use sandbox_tester.Engine.Models.{InvocationResult, denied, error, invocation_result}
use sandbox_tester.Groups.Machine.{Raised, permission_error, repr}

-- `except PermissionError` and `except Exception` of a `run_shell`.
unfoldable pub shell_exception : Raised → InvocationResult
shell_exception (permission_error s) =
    invocation_result denied "Shell invocation was denied by runtime permissions." s
shell_exception raised =
    invocation_result error "Shell invocation raised an exception." (repr raised)

-- The same of a `run_tool`.
unfoldable pub tool_exception : Raised → InvocationResult
tool_exception (permission_error s) =
    invocation_result denied "Tool invocation was denied by runtime permissions." s
tool_exception raised = invocation_result error "Tool invocation raised an exception." (repr raised)
