-- ===== src/Job/Naming.antt =====
-- What `NameOf` of job/job.go guarantees.
use gokue.Prelude.{◌≢◌, Option, none, some, arith, eq_iff, Option-cases, inl, inr}
use gokue.Job.{
  GoType, plain, struct, ptr, Job, anonymous, deref_type, type_name, reflected_name, name_of,
}

-- The types that a pointer chain ends in: no pointer.
abbrev pub IsBase : GoType → Type 0
IsBase (ptr name elem) = ⊥
IsBase _ = Unit

deref_type-IsBase : (t : GoType) → IsBase (deref_type t)
unfolding deref_type
deref_type-IsBase (plain ident name) = tt
deref_type-IsBase (struct ident name fields) = tt
deref_type-IsBase (ptr name elem) = deref_type-IsBase elem

reflected_name-ne-empty : (t : GoType) → reflected_name t ≢ ""
unfolding reflected_name
reflected_name-ne-empty t e =
    ground (arith, eq_iff (type_name (deref_type t)) "", eq_iff anonymous "")

-- Every job, and also a nil job, has a name that is not empty.
pub name_of-ne-empty : (j : Option Job) → name_of j ≢ ""
unfolding name_of
name_of-ne-empty none e = ground (arith, eq_iff anonymous "")
name_of-ne-empty (some j) e = elim (Option-cases j.explicit_name) [
  | inl h ↦ reflected_name-ne-empty j.typ (rw h at e)
  | inr (name, h) ↦ ground (arith, reflected_name-ne-empty j.typ, eq_iff name "")
]
