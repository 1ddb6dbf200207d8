-- ===== src/Connection/Close.antt =====
-- spiceconn.js: what is reported when the socket closes. The state "closing", which main.js sets when
-- it stops a connection, is left out.
use vm_automation_deployment.Common.{Option, none, some}
use vm_automation_deployment.Connection.{State, connecting, start, link, ticket, ready, error}

pub data CloseError : Type 0 where
  connection_refused protocol_mismatch bad_password : CloseError
  unexpected_close : State → CloseError

-- The handler of `close`, where `onerror` is given; after an error nothing more is reported.
unfoldable pub close_error : State → Option CloseError
close_error connecting = some connection_refused
close_error start = some protocol_mismatch
close_error link = some protocol_mismatch
close_error ticket = some bad_password
close_error ready = some (unexpected_close ready)
close_error error = none
