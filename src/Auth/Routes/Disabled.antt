-- ===== src/Auth/Routes/Disabled.antt =====
-- A disabled account: the password does not let it in, a one-time password does.
use ulov_backend.Prelude.Text.{Text}
use ulov_backend.Db.{Db}
use ulov_backend.Redis.{Redis}
use ulov_backend.Auth.Repository as repo
use ulov_backend.Auth.Service as svc
use ulov_backend.Auth.Service.{issue_tokens}
