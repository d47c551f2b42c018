-- ===== src/Store/Schema/Commands.antt =====
-- The constraints under the operations of the store that only the commands of the server call, or
-- nothing yet.
use oh_my_lan.Exec.Keeps.{Keeps}
