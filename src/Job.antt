-- ===== src/Job.antt =====
-- job/job.go and job/job-details.go: the jobs, their names and their errors. A Go type is what
-- package reflect shows of it; a job's contents are an opaque value.
pub mod Naming
use gokue.Prelude.{String, ◌=?◌, Option, none, some, if◌then◌else◌, ℕ, List}
use gokue.Prelude.Int.{ℤ}
use gokue.Prelude.Bytes.{Bytes}

-- A type's `Name()`, which is empty for a type literal, for a struct its `NumField()`, and for a
-- pointer its `Elem()`. `ident` tells apart the types that have all of these in common.
pub data GoType : Type 0 where
  plain : (ident : ℕ) → (name : String) → GoType
  struct : (ident : ℕ) → (name : String) → (fields : ℕ) → GoType
  ptr : (name : String) → (elem : GoType) → GoType

-- A value that implements `job.Job`. `explicit_name` is what its `Name` method returns, if it has
-- one (`job.NamedJob`).
pub record Job : Type 0 where
  pub typ : GoType
  pub explicit_name : Option String
  pub contents : Bytes

pub data ContextError : Type 0 where
  canceled deadline_exceeded : ContextError

-- The errors that reach the retry loop: what `Process` returns, and a panic that was recovered,
-- with the name and the value that its message holds.
pub data JobError : Type 0 where
  returned : (message : String) → JobError
  timed_out : ContextError → JobError
  job_panic : (name recovered : String) → JobError

-- How one call of `Process` ends.
pub data Outcome : Type 0 where
  succeeds : Outcome
  fails : JobError → Outcome
  panics : (recovered : String) → Outcome

-- The loop `for typ.Kind() == reflect.Ptr`.
unfoldable pub deref_type : GoType → GoType
deref_type (plain ident name) = plain ident name
deref_type (struct ident name fields) = struct ident name fields
deref_type (ptr name elem) = deref_type elem

unfoldable pub type_name : GoType → String
type_name (plain ident name) = name
type_name (struct ident name fields) = name
type_name (ptr name elem) = name

abbrev pub anonymous : String
anonymous = "anonymous"

-- The end of `NameOf`, from `reflect.TypeOf(j)` on.
unfoldable pub reflected_name : GoType → String
unfolding deref_type type_name
reflected_name typ = let name = type_name (deref_type typ) in if name =? "" then anonymous else name

unfoldable pub name_of : Option Job → String
unfolding reflected_name
name_of none = anonymous
name_of (some j) = elim j.explicit_name [
  | none ↦ reflected_name j.typ
  | some name ↦ if name =? "" then reflected_name j.typ else name
]
