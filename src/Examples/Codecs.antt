-- ===== src/Examples/Codecs.antt =====
-- The theorems on the codec at concrete inputs.
use gokue.Prelude.{◌≡◌, refl, Option, none, some, [], ◌∷◌, inr, arith, ◌=?◌, if◌then◌else◌}
use gokue.Prelude.Bytes.{Bytes, bytes_eq}
use gokue.Job.{GoType, struct, Job, name_of, deref_type, reflected_name, type_name}
use gokue.Codec.{
  Json, Codec, new_codec, register, serializable_type, has_fields, bind, encode, decode, new_value,
}
use gokue.Codec.Registry.{registers, registry_lem}
use gokue.Codec.Roundtrip.{decode-encode}
use gokue.Examples.Data.{email}

-- `[`, and then the contents.
abbrev unmarshal_list : GoType → Bytes → Option (Option Job)
unmarshal_list typ [] = none
unmarshal_list typ (b ∷ contents) =
    some (some (record { typ = typ; explicit_name = none; contents = contents }))

abbrev json : Json
json = record { marshal = λ j. some (91 ∷ j.contents); unmarshal = unmarshal_list }

abbrev with_email : Codec
with_email = record { types = λ n. if "EmailJob" =? n then some email.typ else none }

registered_email : register json "" (some email) new_codec ≡ (with_email, none)
unfolding register serializable_type has_fields bind new_codec name_of deref_type reflected_name
    type_name bytes_eq
registered_email = refl

decode-encode_example :
    (encode json (some email) (registers json [] with_email) ≡ inr (name_of (some email), 91 ∷ []))
    × (decode json (name_of (some email)) (91 ∷ []) (registers json [] with_email) ≡ inr email)
unfolding new_value
decode-encode_example =
    decode-encode json new_codec with_email email email email (91 ∷ []) []
      (λ j payload writes empty. ground arith) (refl, refl) registered_email refl refl

abbrev as_mail : Codec
as_mail = record { types = λ n. if "mail" =? n then some email.typ else none }

registered_as_mail : register json "mail" (some email) new_codec ≡ (as_mail, none)
unfolding register serializable_type has_fields bind new_codec name_of deref_type reflected_name
    type_name bytes_eq
registered_as_mail = refl

registry_lem_example :
    ((registers json
          (("mail", some email) ∷ [])
          (registers json (("", some email) ∷ []) new_codec)).types
        "EmailJob"
      ≡ some email.typ)
    × ((j : Job) × (j.typ ≡ email.typ) × (serializable_type json j ≡ inr email.typ))
unfolding registers register serializable_type has_fields bind new_codec name_of deref_type
    reflected_name type_name bytes_eq
registry_lem_example =
    registry_lem json (("", some email) ∷ []) (("mail", some email) ∷ []) "EmailJob" email.typ refl

-- `EmailJob` is registered by a value.
abbrev by_value : Codec
by_value = record { types = λ n. if "EmailJob" =? n then some (struct 0 "EmailJob" 1) else none }
