-- ===== src/Codec/Roundtrip.antt =====
-- Encoding and decoding with the codec of backend/codec.go.
use mathlib.Core.Path.{subst}
use gokue.Prelude.{
  String, eq_iff, false, Option, none, some, List, [], ◌∷◌, ◌≡◌, ◌≢◌, refl, sym, ap, ◌∙◌, inl, inr,
  ◌↔◌, arith, Bool-cases,
}
use gokue.Prelude.Bytes.{Bytes}
use gokue.Job.{GoType, plain, struct, ptr, Job, name_of}
use gokue.Codec.{
  Json, not_registered, Codec, new_codec, type_eq, register, new_value, encode, decode_value,
  decode,
}
use gokue.Codec.Registry.{
  bound, bind_free, type_eq_refl, type_eq_iff, registered_name, bind_done, register_cases,
  registers, registers_keep,
}

-- Package encoding/json never makes an empty text.
abbrev pub WritesText : Json → Type 0
WritesText json = (j : Job) (payload : Bytes) → json.marshal j ≡ some payload → payload ≢ []

-- Package encoding/json writes `j` as `payload`, and reads `payload` into a new value of the type
-- of `j` as `copy`.
abbrev pub RoundTrips : Json → Job → Bytes → Job → Type 0
RoundTrips json j payload copy =
    (json.marshal j ≡ some payload) × (json.unmarshal (new_value j.typ) payload ≡ some (some copy))

new_value_ptr : (t : GoType) → (elem : GoType) × (new_value t ≡ ptr "" elem)
unfolding new_value
new_value_ptr (plain i n) = (plain i n, refl)
new_value_ptr (struct i n f) = (struct i n f, refl)
new_value_ptr (ptr n t) = (t, refl)

new_value_again : (elem : GoType) → new_value (ptr "" elem) ≡ ptr "" elem
unfolding new_value
new_value_again elem = refl

module _ (json : Json) where
  encode_bound :
      (j : Job) (payload : Bytes) (c : Codec)
      → c.types (name_of (some j)) ≡ some j.typ
      → json.marshal j ≡ some payload
      → encode json (some j) c ≡ inr (name_of (some j), payload)
  unfolding encode
  encode_bound j payload c b m = rw (encode, b, type_eq_refl j.typ, m)

  encode_unbound :
      (j : Job) (c : Codec)
      → c.types (name_of (some j)) ≡ none
      → encode json (some j) c ≡ inl (not_registered (name_of (some j)))
  unfolding encode
  encode_unbound j c b = rw (encode, b)

  encode_other :
      (j : Job) (t : GoType) (c : Codec)
      → c.types (name_of (some j)) ≡ some t
      → type_eq j.typ t ≡ false
      → encode json (some j) c ≡ inl (not_registered (name_of (some j)))
  unfolding encode
  encode_other j t c b e = rw (encode, b, e)

  decode_bound :
      (name : String) (payload : Bytes) (t : GoType) (copy : Job) (c : Codec)
      → payload ≢ []
      → c.types name ≡ some t
      → json.unmarshal (new_value t) payload ≡ some (some copy)
      → decode json name payload c ≡ inr copy
  unfolding decode
  decode_bound name [] t copy c full b u = absurd (full refl)
  decode_bound name (x ∷ payload) t copy c full b u = rw (decode_value, b, u)

  register_done :
      (sample : Job) (c c' : Codec)
      → register json "" (some sample) c ≡ (c', none)
      → c'.types (name_of (some sample)) ≡ some sample.typ
  register_done sample c c' h = elim (register_cases json "" (some sample) c) [
    | inl (e, refused) ↦ cc
    | inr (j, given, typed, made) ↦
        let same : j ≡ sample = cc in
        subst (λ k. c'.types (name_of (some k)) ≡ some k.typ) same
          (bind_done (registered_name "" j) j.typ c c' (sym made ∙ h))
  ]

  -- A job whose type was registered under its own name, from a sample with that name, comes back,
  -- if package encoding/json never writes an empty text and reads the job's text as a copy: after
  -- any further calls of `Register`, `Encode` answers the name and the JSON text of the job, and
  -- `Decode` of these answers that copy.
  pub decode-encode :
      (c c' : Codec) (sample j copy : Job) (payload : Bytes) (later : List (String × Option Job))
      → WritesText json
      → RoundTrips json j payload copy
      → register json "" (some sample) c ≡ (c', none)
      → sample.typ ≡ j.typ
      → name_of (some sample) ≡ name_of (some j)
      → let d = registers json later c' in
        (encode json (some j) d ≡ inr (name_of (some j), payload))
        × (decode json (name_of (some j)) payload d ≡ inr copy)
  decode-encode c c' sample j copy payload later texts (writes, reads) done same_type same_name =
      let d = registers json later c' in
      let bound : d.types (name_of (some j)) ≡ some j.typ =
        registers_keep json later _ _ c'
          (ap c'.types (sym same_name) ∙ register_done sample c c' done ∙ ap some same_type) in
      (
        encode_bound j payload d bound writes,
        decode_bound (name_of (some j)) payload j.typ copy d (texts j payload writes) bound reads,
      )

  registered_new :
      (name : String) (sample : Job) (c : Codec)
      → register json name (some sample) new_codec ≡ (c, none)
      → c ≡ bound (registered_name name sample) sample.typ new_codec
  unfolding new_codec
  registered_new name sample c done = elim (register_cases json name (some sample) new_codec) [
    | inl (e, refused) ↦ cc
    | inr (j, given, typed, made) ↦
        let same : j ≡ sample = cc in
        ap (λ r. r.0) (sym done ∙ made ∙ bind_free (registered_name name j) j.typ new_codec refl)
        ∙ ap (λ k. bound (registered_name name k) k.typ new_codec) same
  ]

  -- A name of the client's own does not serve `Encode`, which looks a job up by `NameOf` only: on a
  -- new codec on which nothing but this name was registered, and it is neither empty nor that of the
  -- job, `Encode` answers `ErrJobNotRegistered`, although `Register` succeeded.
  pub custom_name_unencoded :
      (name : String) (sample : Job) (c : Codec)
      → name ≢ ""
      → name ≢ name_of (some sample)
      → register json name (some sample) new_codec ≡ (c, none)
      → encode json (some sample) c ≡ inl (not_registered (name_of (some sample)))
  unfolding new_codec
  custom_name_unencoded name sample c given other done = encode_unbound sample c (
      ap (λ d. d.types (name_of (some sample))) (registered_new name sample c done)
      ∙ ground (arith, eq_iff name "", eq_iff name (name_of (some sample))))

  -- A copy of the type that `Decode` gives to what is bound to a name, whose own name is this one and
  -- which package encoding/json can write: it can be encoded exactly if the bound type is a pointer,
  -- and not if the job was registered by a value.
  pub encode-new_value :
      (name : String) (c : Codec) (t : GoType) (copy : Job)
      → c.types name ≡ some t
      → name_of (some copy) ≡ name
      → copy.typ ≡ new_value t
      → ((text : Bytes) × (json.marshal copy ≡ some text))
      → ((text : Bytes) × (encode json (some copy) c ≡ inr (name, text)))
        ↔ ((elem : GoType) × (t ≡ ptr "" elem))
  encode-new_value name c t copy bound named typed (text, writes) = (
    λ (again, encoded). elim (Bool-cases (type_eq copy.typ t)) [
      | inl same ↦
          let (elem, made) = new_value_ptr t in
          (elem, sym ((type_eq_iff copy.typ t).0 same) ∙ typed ∙ made)
      | inr other ↦ cc (encode_other copy t c (ap c.types named ∙ bound) other, encoded)
    ],
    λ (elem, pointer).
        let same : copy.typ ≡ t =
          typed ∙ ap new_value pointer ∙ new_value_again elem ∙ sym pointer in
        (
          text,
          encode_bound copy text c (ap c.types named ∙ bound ∙ ap some (sym same)) writes
              ∙ ap (λ n. inr (n, text)) named,
        ),
  )
