-- ===== src/Client/Stored.antt =====
-- src/intercom_client.c: `intercom_handle_audio` as a whole.
use snapcastc.Timespec.{Timespec}
use snapcastc.Client.Handled.{Handled}
