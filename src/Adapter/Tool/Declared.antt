-- ===== src/Adapter/Tool/Declared.antt =====
-- What is sent to a provider is made of the declared arguments.
use atlas_alpha.Prelude.{
  ◌≡◌, refl, sym, ap, ◌∙◌, Bool, true, String, Option, none, some, List, [], ◌∷◌, Dict, All, inl,
  inr, Bool-cases, contains,
}
use atlas_alpha.Prelude.Result.{Result, ok, >>=-eq-ok, >>=-ok}
use atlas_alpha.Value.{Value, Fields, end, get, set}
use atlas_alpha.Adapter.{
  PayloadField, ToolSchema, check_all, arg_names, reference_declared, arg_declared, validate_schema,
  exactly_one, spec_safe,
}
use atlas_alpha.Adapter.Tool.{present, attribute, value_for, payload_value, build_payload}

check_all-All :
    {A : Type 0} (check : A → Result Bool) (xs : List A) (b : Bool)
    → check_all check xs ≡ ok b
    → All (λ x. (c : Bool) × (check x ≡ ok c)) xs
unfolding check_all
check_all-All check [] b h = tt
check_all-All check (x ∷ xs) b h =
    let (first, e, h1) = >>=-eq-ok (check x) _ b h in ((first, e), check_all-All check xs b h1)

module _ (names : List String) (args args' : Fields)
    (there : (a : String) → contains names a ≡ true → (v : Value) × (get a args ≡ some v))
    (agree : (a : String) → contains names a ≡ true → get a args ≡ get a args') where
  attribute-there :
      (a : String)
      → contains names a ≡ true
      → (v : Value) × (attribute a args ≡ ok v) × (attribute a args' ≡ ok v)
  attribute-there a h =
      let (v, e) = there a h in (v, ap (present a) e, ap (present a) (sym (agree a h) ∙ e))

  value_for-there :
      (key : String) (reference : Option (Option String)) (constant : Option Value) (b : Bool)
      → reference_declared names key reference ≡ ok b
      → (v : Value) × (value_for reference constant args ≡ ok v)
        × (value_for reference constant args' ≡ ok v)
  value_for-there key none constant b h = (_, refl, refl)
  value_for-there key (some none) constant b h = (_, refl, refl)
  value_for-there key (some (some a)) constant b h = elim (Bool-cases (contains names a)) [
    | inl e ↦ attribute-there a e
    | inr e ↦ let bad = rw e at h in cc
  ]

  payload_value-there :
      (key : String) (f : PayloadField) (b : Bool)
      → arg_declared names (key, f) ≡ ok b
      → (v : Value) × (payload_value f args ≡ ok v) × (payload_value f args' ≡ ok v)
  payload_value-there key f b h = value_for-there key f.arg f.constant b h

  build_payload-there :
      (fs : Dict PayloadField) (payload : Fields)
      → All (λ e. (c : Bool) × (arg_declared names e ≡ ok c)) fs
      → (out : Fields) × (build_payload fs args payload ≡ ok out)
        × (build_payload fs args' payload ≡ ok out)
  unfolding build_payload
  build_payload-there [] payload h = (payload, refl, refl)
  build_payload-there ((key, f) ∷ fs) payload ((b, e), h) =
      let (v, p, q) = payload_value-there key f b e in
      let (out, r, s) = build_payload-there fs (set key v payload) h in
      (out, >>=-ok (payload_value f args) _ v _ p r, >>=-ok (payload_value f args') _ v _ q s)

-- The payload of a schema that passes its validation can be built from any arguments that have the
-- declared ones, and depends on these alone: whatever else the arguments hold is not sent.
pub build_payload-declared :
    (schema valid : ToolSchema) (args args' : Fields)
    → validate_schema schema ≡ ok valid
    → ((a : String)
        → contains (arg_names schema.args) a ≡ true
        → (v : Value) × (get a args ≡ some v))
    → ((a : String) → contains (arg_names schema.args) a ≡ true → get a args ≡ get a args')
    → (payload : Fields) × (build_payload schema.payload args end ≡ ok payload)
      × (build_payload schema.payload args' end ≡ ok payload)
unfolding validate_schema
build_payload-declared schema valid args args' h there agree =
    let (_, _, h1) = >>=-eq-ok (check_all spec_safe schema.args) _ valid h in
    let (_, _, h2) =
      >>=-eq-ok (check_all (λ e. exactly_one "payload" "'arg'" e.1.arg e.1.constant) schema.payload)
        _ valid h1 in
    let (_, _, h3) =
      >>=-eq-ok
        (check_all (λ e. exactly_one "response" "'path'" e.1.path e.1.constant) schema.response) _
        valid h2 in
    let (b, e, _) =
      >>=-eq-ok (check_all (arg_declared (arg_names schema.args)) schema.payload) _ valid h3 in
    build_payload-there (arg_names schema.args) args args' there agree schema.payload end
      (check_all-All (arg_declared (arg_names schema.args)) schema.payload b e)
