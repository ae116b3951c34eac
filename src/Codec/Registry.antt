-- ===== src/Codec/Registry.antt =====
-- The registry of the codec of backend/codec.go, over any calls of `Register`.
use mathlib.Core.Path.{subst}
use gokue.Prelude.{
  String, ◌=?◌, ==_iff, eq_iff, ◌&&◌, ◌||◌, true, Option, none, some, List, [], ◌∷◌, ◌≡◌, refl, sym,
  ap, ◌∙◌, ◌⊎◌, inl, inr, ◌↔◌, arith, Option-cases, Bool-cases, if◌then◌else◌, if_cases,
}
use gokue.Prelude.Bytes.{bytes_eq}
use gokue.Job.{GoType, plain, struct, ptr, Job, name_of, deref_type}
use gokue.Codec.{
  has_fields, empty_object, json_null, no_serializable_fields, Json, CodecError, name_conflict,
  Codec, new_codec, type_eq, serializable_type, bind, register,
}

pub type_eq_refl : (t : GoType) → type_eq t t ≡ true
unfolding type_eq
type_eq_refl (plain i n) = ground (arith, ==_iff i i, eq_iff n n)
type_eq_refl (struct i n f) = ground (arith, ==_iff i i, eq_iff n n, ==_iff f f)
type_eq_refl (ptr n t) = ground (arith, eq_iff n n, type_eq_refl t)

type_eq→eq : (t u : GoType) → type_eq t u ≡ true → t ≡ u
unfolding type_eq
type_eq→eq (plain i n) (plain j m) h = ground (arith, eq_iff n m)
type_eq→eq (struct i n f) (struct j m g) h = ground (arith, eq_iff n m)
type_eq→eq (ptr n t) (ptr m u) h = ground (arith, eq_iff n m, type_eq→eq t u)
type_eq→eq (plain i n) (struct j m g) h = cc
type_eq→eq (plain i n) (ptr m u) h = cc
type_eq→eq (struct i n f) (plain j m) h = cc
type_eq→eq (struct i n f) (ptr m u) h = cc
type_eq→eq (ptr n t) (plain j m) h = cc
type_eq→eq (ptr n t) (struct j m g) h = cc

-- Two types are compared as `reflect` does: equal or not.
pub type_eq_iff : (t u : GoType) → (type_eq t u ≡ true) ↔ (t ≡ u)
type_eq_iff t u = (type_eq→eq t u, λ e. subst (λ v. type_eq t v ≡ true) e (type_eq_refl t))

-- The name that `Register` uses.
abbrev pub registered_name : String → Job → String
registered_name name sample = if name =? "" then name_of (some sample) else name

-- The codec after a name was bound.
abbrev pub bound : String → GoType → Codec → Codec
bound name typ c = record c { types = λ n. if name =? n then some typ else c.types n }

pub bind_free :
    (name : String) (typ : GoType) (c : Codec)
    → c.types name ≡ none
    → bind name typ c ≡ (bound name typ c, none)
unfolding bind
bind_free name typ c h = rw (bind, h)

bind_taken :
    (name : String) (typ old : GoType) (c : Codec)
    → c.types name ≡ some old
    → bind name typ c ≡ (if type_eq old typ then (c, none) else (c, some (name_conflict name)))
unfolding bind
bind_taken name typ old c h = rw (bind, h)

-- `bind` keeps the codec, or binds a free name.
bind_cases :
    (name : String) (typ : GoType) (c : Codec)
    → ((bind name typ c).0 ≡ c) ⊎ ((c.types name ≡ none) × ((bind name typ c).0 ≡ bound name typ c))
bind_cases name typ c = elim (Option-cases (c.types name)) [
  | inl free ↦ inr (free, ap (λ r. r.0) (bind_free name typ c free))
  | inr (old, taken) ↦ inl (
      subst (λ (r : Codec × Option CodecError). r.0 ≡ c) (sym (bind_taken name typ old c taken))
        (if_cases (λ (r : Codec × Option CodecError). r.0 ≡ c) (type_eq old typ) _ _ (λ h. refl)
          (λ h. refl)))
]

-- A successful `bind` leaves the name bound to the type.
pub bind_done :
    (name : String) (typ : GoType) (c c' : Codec)
    → bind name typ c ≡ (c', none)
    → c'.types name ≡ some typ
bind_done name typ c c' h = elim (Option-cases (c.types name)) [
  | inl free ↦
      let made : c' ≡ bound name typ c = ap (λ r. r.0) (sym h ∙ bind_free name typ c free) in
      ap (λ d. d.types name) made ∙ ground (arith, eq_iff name name)
  | inr (old, taken) ↦ elim (Bool-cases (type_eq old typ)) [
    | inl same ↦
        let kept : c' ≡ c = cc (bind_taken name typ old c taken, same, h) in
        ap (λ d. d.types name) kept ∙ taken ∙ ap some (type_eq→eq old typ same)
    | inr other ↦ cc (bind_taken name typ old c taken, other, h)
  ]
]

bound_keeps :
    (name n : String) (typ t : GoType) (c : Codec)
    → c.types name ≡ none
    → c.types n ≡ some t
    → (bound name typ c).types n ≡ some t
bound_keeps name n typ t c free h = ground (arith, eq_iff name n)

bind_keeps :
    (name n : String) (typ t : GoType) (c : Codec)
    → c.types n ≡ some t
    → (bind name typ c).0.types n ≡ some t
bind_keeps name n typ t c h = elim (bind_cases name typ c) [
  | inl kept ↦ ap (λ d. d.types n) kept ∙ h
  | inr (free, made) ↦ ap (λ d. d.types n) made ∙ bound_keeps name n typ t c free h
]

-- What a name is bound to after `bind`.
bind_origin :
    (name n : String) (typ t : GoType) (c : Codec)
    → (bind name typ c).0.types n ≡ some t
    → (c.types n ≡ some t) ⊎ (t ≡ typ)
bind_origin name n typ t c h = elim (bind_cases name typ c) [
  | inl kept ↦ inl (ap (λ d. d.types n) (sym kept) ∙ h)
  | inr (free, made) ↦
      let seen : (bound name typ c).types n ≡ some t = ap (λ d. d.types n) (sym made) ∙ h in
      ground arith
]

module _ (json : Json) where
  serializable_cases :
      (j : Job)
      → ((e : CodecError) × (serializable_type json j ≡ inl e))
        ⊎ (serializable_type json j ≡ inr j.typ)
  unfolding serializable_type
  serializable_cases j = elim (Option-cases (json.marshal j)) [
    | inl fails ↦ inl (no_serializable_fields, rw (serializable_type, fails))
    | inr (payload, made) ↦
        rw (serializable_type, made)
          (if_cases
            (λ (r : CodecError ⊎ GoType). ((e : CodecError) × (r ≡ inl e)) ⊎ (r ≡ inr j.typ))
            (has_fields (deref_type j.typ)
              && (bytes_eq payload empty_object || bytes_eq payload json_null))
            (inl no_serializable_fields) (inr j.typ) (λ h. inl (_, refl)) (λ h. inr refl))
  ]

  -- `Register` binds the sample's type under its name, or fails and changes nothing.
  pub register_cases :
      (name : String) (sample : Option Job) (c : Codec)
      → ((e : CodecError) × (register json name sample c ≡ (c, some e)))
        ⊎ ((j : Job) × (sample ≡ some j)
            × (serializable_type json j ≡ inr j.typ)
            × (register json name sample c ≡ bind (registered_name name j) j.typ c))
  unfolding register
  register_cases name none c = inl (_, refl)
  register_cases name (some j) c = elim (serializable_cases j) [
    | inl (e, refused) ↦ inl (e, rw (register, refused))
    | inr typed ↦ inr (j, refl, typed, rw (register, typed))
  ]

  -- A sequence of calls of `Register`.
  unfoldable pub registers : List (String × Option Job) → Codec → Codec
  registers [] c = c
  registers ((name, sample) ∷ calls) c = registers calls (register json name sample c).0

  register_keeps :
      (name n : String) (sample : Option Job) (t : GoType) (c : Codec)
      → c.types n ≡ some t
      → (register json name sample c).0.types n ≡ some t
  register_keeps name n sample t c h = elim (register_cases name sample c) [
    | inl (e, refused) ↦ ap (λ r. r.0.types n) refused ∙ h
    | inr (j, given, typed, made) ↦
        ap (λ r. r.0.types n) made ∙ bind_keeps (registered_name name j) n j.typ t c h
  ]

  pub registers_keep :
      (calls : List (String × Option Job)) (n : String) (t : GoType) (c : Codec)
      → c.types n ≡ some t
      → (registers calls c).types n ≡ some t
  unfolding registers
  registers_keep [] n t c h = h
  registers_keep ((name, sample) ∷ calls) n t c h =
      registers_keep calls n t _ (register_keeps name n sample t c h)

  -- Every bound type is the type of a sample that passed the check.
  abbrev pub IsSound : Codec → Type 0
  IsSound c =
      (n : String) (t : GoType)
      → c.types n ≡ some t
      → (j : Job) × (j.typ ≡ t) × (serializable_type json j ≡ inr t)

  register-IsSound :
      (name : String) (sample : Option Job) (c : Codec)
      → IsSound c
      → IsSound (register json name sample c).0
  register-IsSound name sample c v n t h = elim (register_cases name sample c) [
    | inl (e, refused) ↦ v n t (ap (λ r. r.0.types n) (sym refused) ∙ h)
    | inr (j, given, typed, made) ↦
        elim (bind_origin (registered_name name j) n j.typ t c
          (ap (λ r. r.0.types n) (sym made) ∙ h)) [
            | inl old ↦ v n t old
            | inr new ↦ (j, sym new, typed ∙ ap inr (sym new))
          ]
  ]

  registers-IsSound :
      (calls : List (String × Option Job)) (c : Codec) → IsSound c → IsSound (registers calls c)
  unfolding registers
  registers-IsSound [] c v = v
  registers-IsSound ((name, sample) ∷ calls) c v =
      registers-IsSound calls _ (register-IsSound name sample c v)

  -- After any calls of `Register` on a new codec, and then any more, failed ones included, a name
  -- that is bound stays bound to the same type, and this is the type of a sample that `Register`
  -- found serializable.
  pub registry_lem :
      (first later : List (String × Option Job)) (n : String) (t : GoType)
      → (registers first new_codec).types n ≡ some t
      → ((registers later (registers first new_codec)).types n ≡ some t)
        × ((j : Job) × (j.typ ≡ t) × (serializable_type json j ≡ inr t))
  unfolding new_codec
  registry_lem first later n t h =
      (registers_keep later n t _ h, registers-IsSound first new_codec (λ m u e. cc) n t h)
