-- ===== src/Http/Router/Confined.antt =====
-- What a request can show to a user who is no administrator.
use laap.Schema.{Db}
