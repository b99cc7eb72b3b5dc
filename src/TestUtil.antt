-- ===== src/TestUtil.antt =====
-- pkg/testutil/database.go: a database for one test.
pub mod Migrations
use text.Mathlib.Text.{◌==◌}
use qonto.Prelude.{String, Bytes, codes, List, [], ◌∷◌, if◌then◌else◌}
use qonto.Go.Errors.{Error, Result, ok, err}
use qonto.Go.Filepath.{dir, join}

-- `os.Getenv` is a parameter.
unfoldable pub admin_host : (String → String) → String
admin_host getenv = let h = getenv "TEST_DB_HOST" in if h == "" then "localhost" else h

unfoldable pub admin_port : (String → String) → String
admin_port getenv = let p = getenv "TEST_DB_PORT" in if p == "" then "5433" else p

-- `this_file` is the path of database.go, from `runtime.Caller`.
unfoldable pub migrations_dir : Bytes → Bytes
unfolding dir join
migrations_dir this_file = join (dir this_file ∷ codes ".." ∷ codes ".." ∷ codes "migrations" ∷ [])

-- pgtestdb.Role and pgtestdb.Config
pub record Role : Type 0 where
  pub username : String
  pub password : String
  pub capabilities : String

pub record TestConfig : Type 0 where
  pub driver_name : String
  pub host : String
  pub port : String
  pub user : String
  pub password : String
  pub database : String
  pub options : String
  pub test_role : Role

-- The test goes on with a pool, that its clean-up closes, or ends with a message.
pub data Opened (Pool : Type 0) : Type 0 where
  opened : Pool → List Pool → Opened Pool
  fatal : String → Error → Opened Pool

-- `custom` is pgtestdb's: the URL of a new database that the migrations of a directory were run on.
-- `new_pool` is `pgxpool.New`.
module _ {Pool : Type 0} (custom : TestConfig → Bytes → String)
    (new_pool : String → Result Pool) where
  unfoldable pub open_db : (String → String) → Bytes → Opened Pool
  unfolding admin_host admin_port migrations_dir
  open_db getenv this_file =
      let conf : TestConfig = record {
        driver_name = "pgx";
        host = admin_host getenv;
        port = admin_port getenv;
        user = "qonto";
        password = "qonto";
        database = "qonto";
        options = "sslmode=disable";
        test_role = record {
          username = "qonto_test";
          password = "qonto_test";
          capabilities = "SUPERUSER";
        };
      } in
      elim (new_pool (custom conf (migrations_dir this_file))) [
        | ok pool ↦ opened pool (pool ∷ [])
        | err x ↦ fatal "open pool for test database" x
      ]
