-- ===== src/Lifecycle/HttpServer.antt =====
-- `New` of pkg/server/server.go: what the program sets on an http.Server of net/http.
use Prim.Native.String.{◌++◌ as ◌<>◌}
use qonto.Prelude.{String}
use qonto.Prelude.Int.{ℤ}

-- Durations are in nanoseconds.
pub record HttpConfig : Type 0 where
  pub port : String
  pub read_header_timeout : ℤ
  pub read_timeout : ℤ
  pub write_timeout : ℤ
  pub shutdown_timeout : ℤ

-- The fields of an http.Server that are set.
pub record HttpServer (Handler : Type 0) : Type 0 where
  pub addr : String
  pub handler : Handler
  pub read_header_timeout : ℤ
  pub read_timeout : ℤ
  pub write_timeout : ℤ

pub record Server (Handler : Type 0) : Type 0 where
  pub http_server : HttpServer Handler
  pub shutdown_timeout : ℤ

unfoldable pub new_server : {Handler : Type 0} → HttpConfig → Handler → Server Handler
new_server cfg handler = record {
  http_server = record {
    addr = ":" <> cfg.port;
    handler = handler;
    read_header_timeout = cfg.read_header_timeout;
    read_timeout = cfg.read_timeout;
    write_timeout = cfg.write_timeout;
  };
  shutdown_timeout = cfg.shutdown_timeout;
}
