-- ===== src/Session/Client/Freed.antt =====
-- What `session_process_ws_bytes` reads of a session that `session_handle_ws_message` has freed.
use sockify.Prelude.{◌≡◌, true, Option, none, some, ◌==◌}
use sockify.Session.{Session}
use sockify.Status.{Status}

-- A result that leaves the session freed has read it after that.
abbrev pub FreedIsRead : {W : Type 0} → Option (Status × Session × W) → Type 0
FreedIsRead none = Unit
FreedIsRead (some (rc, s, w)) = (s.closing == 2) ≡ true → s.used_freed ≡ true
