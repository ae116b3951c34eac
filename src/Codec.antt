-- ===== src/Codec.antt =====
-- backend/codec.go: the codec, which turns registered jobs into payloads and back. Package
-- encoding/json is a parameter: `marshal` and `unmarshal` answer `none` for an error.
pub mod Registry
pub mod Roundtrip
use gokue.Prelude.{
  ℕ, zero, suc, String, ◌=?◌, ◌==◌, Bool, true, false, not, ◌&&◌, ◌||◌, Option, none, some, List,
  [], ◌∷◌, ◌⊎◌, inl, inr, if◌then◌else◌, ltb,
}
use gokue.Prelude.Bytes.{Bytes, bytes_eq}
use gokue.Job.{GoType, plain, struct, ptr, Job, deref_type, name_of}

-- `unmarshal` decodes into a new value of the given pointer type; its inner `none` is a value that
-- is not a `job.Job`.
pub record Json : Type 0 where
  pub marshal : Job → Option Bytes
  pub unmarshal : GoType → Bytes → Option (Option Job)

pub data CodecError : Type 0 where
  nil_job empty_payload no_serializable_fields : CodecError
  name_conflict not_registered encode_failed decode_failed : (name : String) → CodecError

-- The map `types`, by what it has for each name.
pub record Codec : Type 0 where
  pub types : String → Option GoType

unfoldable pub new_codec : Codec
new_codec = record { types = λ name. none }

-- The comparison of two `reflect.Type`.
unfoldable pub type_eq : GoType → GoType → Bool
type_eq (plain i n) (plain j m) = (i == j) && (n =? m)
type_eq (struct i n f) (struct j m g) = (i == j) && ((n =? m) && (f == g))
type_eq (ptr n t) (ptr m u) = let rest = type_eq t u in (n =? m) && rest
type_eq _ _ = false

-- `{}` and `null`
abbrev pub empty_object : Bytes
empty_object = 123 ∷ 125 ∷ []

abbrev pub json_null : Bytes
json_null = 110 ∷ 117 ∷ 108 ∷ 108 ∷ []

-- `base.Kind() == reflect.Struct && base.NumField() > 0`
unfoldable pub has_fields : GoType → Bool
has_fields (struct ident name fields) = ltb 0 fields
has_fields _ = false

-- `newValue`: the type of the pointer to the new value.
unfoldable pub new_value : GoType → GoType
new_value (ptr name elem) = ptr "" elem
new_value (plain ident name) = ptr "" (plain ident name)
new_value (struct ident name fields) = ptr "" (struct ident name fields)

-- The critical section of `Register`.
unfoldable pub bind : String → GoType → Codec → Codec × Option CodecError
unfolding type_eq
bind name typ c = elim (c.types name) [
  | some existing ↦ if type_eq existing typ then (c, none) else (c, some (name_conflict name))
  | none ↦ (record c { types = λ n. if name =? n then some typ else c.types n }, none)
]

module _ (json : Json) where
  unfoldable pub serializable_type : Job → CodecError ⊎ GoType
  unfolding has_fields deref_type
  serializable_type sample = elim (json.marshal sample) [
    | none ↦ inl no_serializable_fields
    | some payload ↦
        if has_fields (deref_type sample.typ)
          && (bytes_eq payload empty_object || bytes_eq payload json_null)
        then inl no_serializable_fields
        else inr sample.typ
  ]

  unfoldable pub register : String → Option Job → Codec → Codec × Option CodecError
  unfolding serializable_type bind
  register name none c = (c, some nil_job)
  register name (some sample) c = elim (serializable_type sample) [
    | inl e ↦ (c, some e)
    | inr typ ↦ bind (if name =? "" then name_of (some sample) else name) typ c
  ]

  unfoldable pub encode : Option Job → Codec → CodecError ⊎ (String × Bytes)
  unfolding type_eq
  encode none c = inl nil_job
  encode (some j) c =
      let name = name_of (some j) in
      elim (c.types name) [
        | none ↦ inl (not_registered name)
        | some typ ↦
            if type_eq j.typ typ
            then elim (json.marshal j) [
              | none ↦ inl (encode_failed name)
              | some payload ↦ inr (name, payload)
            ]
            else inl (not_registered name)
      ]

  -- What `Decode` does with a payload that is not empty.
  unfoldable pub decode_value : String → Bytes → Codec → CodecError ⊎ Job
  unfolding new_value
  decode_value name payload c = elim (c.types name) [
    | none ↦ inl (not_registered name)
    | some typ ↦ elim (json.unmarshal (new_value typ) payload) [
      | none ↦ inl (decode_failed name)
      | some none ↦ inl (not_registered name)
      | some (some j) ↦ inr j
    ]
  ]

  unfoldable pub decode : String → Bytes → Codec → CodecError ⊎ Job
  unfolding decode_value
  decode name [] c = inl empty_payload
  decode name (b ∷ payload) c = decode_value name (b ∷ payload) c
