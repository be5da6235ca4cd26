-- ===== src/Database.antt =====
-- pkg/db/db.go: connecting to the database, and the runner of the migrations.
pub mod Connecting
mod Names
pub mod Migrations
use Prim.Native.Nat.{Ordering}
use Prim.Native.String.{compare}
use yukbor_backend.Common.{
  ℕ, zero, suc, ◌+◌, String, Option, none, some, Bool, true, false, ◌||◌, List, [], ◌∷◌, ◌++◌,
  string_Eq, if◌then◌else◌, contains,
}
use yukbor_backend.Common.Table.{order_by}
use yukbor_backend.Common.Exec.{
  Result, ok, err, Exec, pure, raise, gets, lift, raise_if, or_raise, ◌>>=◌, ◌>>◌,
}

-- What an attempt to connect meets: whether the pool opens and answers a ping, and whether the
-- context ends in the second after it.
pub record Attempt : Type 0 where
  pub reached : Bool
  pub cancelled : Bool

pub data ConnectError : Type 0 where
  bad_url cancelled unreachable : ConnectError

-- The loop of `Connect`: the attempts left, the number of this one, and what each attempt meets. It
-- returns the number of the attempt that gave the pool.
unfoldable pub attempts_from : ℕ → ℕ → (ℕ → Attempt) → Result ConnectError ℕ
attempts_from zero attempt meets = err ConnectError.unreachable
attempts_from (suc left) attempt meets =
    let next = attempts_from left (attempt + 1) meets in
    if (meets attempt).reached
    then ok attempt
    else if (meets attempt).cancelled
    then err ConnectError.cancelled
    else next

-- `Connect`; the flag says whether the URL parses.
unfoldable pub connect : Bool → (ℕ → Attempt) → Result ConnectError ℕ
unfolding attempts_from
connect parses meets = if parses then attempts_from 30 1 meets else err ConnectError.bad_url

-- What `Glob` finds for `*.sql`, and what `ReadFile` gives for a name, `none` where it fails.
pub record Fs : Type 0 where
  pub sql_files : List String
  pub contents : String → Option String

-- The rows of public.schema_migrations, in the order of their insertion, and all that the files
-- work on.
pub record Db (S : Type 0) : Type 0 where
  pub versions : List String
  pub schema : S

-- How a COMMIT goes: done, not done, or done with the answer lost.
pub data Commit : Type 0 where
  done refused unanswered : Commit

-- Which statements of a run fail, by the file where there is one.
pub record Env : Type 0 where
  pub table_lost : Bool
  pub glob_lost : Bool
  pub versions_lost : Bool
  pub begin_lost : String → Bool
  pub record_lost : String → Bool
  pub commit : String → Commit

pub data MigrateError : Type 0 where
  create_table glob versions : MigrateError
  read begin body record_version commit : String → MigrateError

-- `sort.Strings`
abbrev pub sorted : List String → List String
sorted names = order_by (λ s t. elim (compare s t) [ Ordering.gt ↦ false | _ ↦ true ]) names

-- `exec` is what the database makes of a file: `none` where a statement of it fails.
module _ {S : Type 0} (exec : String → S → Option S) where
  -- The transaction of `applyOne` up to its COMMIT: what would be committed. The version is a
  -- primary key.
  unfoldable pub transaction : Env → String → String → Db S → Result MigrateError (Db S)
  transaction env name file db =
      if env.begin_lost name then err (MigrateError.begin name) else elim (exec file db.schema) [
        | none ↦ err (MigrateError.body name)
        | some schema ↦
            if contains name db.versions || env.record_lost name
            then err (MigrateError.record_version name)
            else ok (record { versions = db.versions ++ name ∷ []; schema = schema })
      ]

  unfoldable pub committed : Commit → String → Db S → Exec (Db S) MigrateError (Unit {0})
  committed Commit.done name new db = (ok tt, new)
  committed Commit.refused name new db = (err (MigrateError.commit name), db)
  committed Commit.unanswered name new db = (err (MigrateError.commit name), new)

  -- `applyOne`
  unfoldable pub apply_one : Env → String → String → Exec (Db S) MigrateError (Unit {0})
  unfolding transaction committed
  apply_one env name file = do
    planned ← gets (λ db. transaction env name file db)
    new ← lift planned
    committed (env.commit name) name new

  -- The loop of `Migrate`
  unfoldable pub apply_all :
      Env → Fs → List String → List String → Exec (Db S) MigrateError (Unit {0})
  unfolding apply_one
  apply_all env fs applied [] = pure tt
  apply_all env fs applied (name ∷ names) =
      let rest = apply_all env fs applied names in
      if contains name applied then rest else do
        file ← or_raise (fs.contents name) (MigrateError.read name)
        apply_one env name file
        rest

  -- `Migrate`
  unfoldable pub migrate : Env → Fs → Exec (Db S) MigrateError (Unit {0})
  unfolding apply_all
  migrate env fs = do
    raise_if env.table_lost MigrateError.create_table
    raise_if env.glob_lost MigrateError.glob
    raise_if env.versions_lost MigrateError.versions
    applied ← gets (λ db. db.versions)
    apply_all env fs applied (sorted fs.sql_files)

  -- The one-shot command run again and again, whatever it answers.
  unfoldable pub migrate_all : List Env → Fs → Db S → Db S
  unfolding migrate
  migrate_all [] fs db = db
  migrate_all (env ∷ envs) fs db = migrate_all envs fs (migrate env fs db).1
