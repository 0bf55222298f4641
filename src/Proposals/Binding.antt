-- ===== src/Proposals/Binding.antt =====
-- The references that `semantic_binding` of proposals.py takes out of a frame id.
use haetae.Prelude.{
  ℕ, ◌^◌, ◌≤◌, ◌<◌, ◌≡◌, ◌⊎◌, refl, ap, sym, ◌∙◌, arith, String, Bool, true, false, not, ◌&&◌, some,
  List, [], ◌∷◌, length, all, All, codes, take, drop, ltb, leb, ◌==◌, bytes_eq, bytes_eq-eq, inl,
  inr, if-cases,
}
use haetae.Prelude.Bytes.{is_hex}
use haetae.Prelude.Int.{pos, negsuc}
use haetae.Python.{Result, ok, err}
use haetae.Python.Values.{Json, Fields, int, str, obj, find, field_count, has_exactly}
use haetae.Proposals.{
  semantic_prefix, is_identity_char, is_identity, is_revision, is_one, is_model_hash, is_binding,
  revision_names, identity_names, as_invalid, checked_binding, semantic_binding, semantic_fields,
}

-- An ASCII letter or digit, or one of `_.-`.
abbrev pub IdentityChar : ℕ → Type 0
IdentityChar c =
    ((48 ≤ c) × (c ≤ 57))
    ⊎ (((65 ≤ c) × (c ≤ 90)) ⊎ (((97 ≤ c) × (c ≤ 122)) ⊎ ((c ≡ 95) ⊎ ((c ≡ 46) ⊎ (c ≡ 45)))))

-- A lower-case hexadecimal digit.
abbrev pub HexDigit : ℕ → Type 0
HexDigit c = ((48 ≤ c) × (c ≤ 57)) ⊎ ((97 ≤ c) × (c ≤ 102))

abbrev pub IsRevision : Json → Type 0
IsRevision v = (n : ℕ) × (v ≡ int (pos n)) × (0 < n) × (n < 2 ^ 64)

abbrev pub IsIdentity : Json → Type 0
IsIdentity v =
    (text : String) × (v ≡ str text)
    × (1 ≤ length (codes text))
    × (length (codes text) ≤ 64)
    × All IdentityChar (codes text)

-- The references: nine fields, each with its type and bounds.
pub record Binding (value : Fields) : Type 0 where
  pub nine : field_count value ≡ 9
  pub schema : find "schema_version" value ≡ int (pos 1)
  pub revisions : All (λ key. IsRevision (find key value)) ("world_revision" ∷ "task_revision" ∷ [])
  pub identities :
      All
        (λ key. IsIdentity (find key value))
        ("task_id" ∷ "step_id" ∷ "robot_id" ∷ "model_sha256" ∷ "tool_id" ∷ "item_id" ∷ [])
  pub model :
      (text : String) × (find "model_sha256" value ≡ str text)
      × (length (codes text) ≡ 64)
      × All HexDigit (codes text)

and_parts : (a b : Bool) → (a && b) ≡ true → (a ≡ true) × (b ≡ true)
and_parts true b h = (refl, h)
and_parts false b h = cc

all-All :
    {A : Type 0} {P : A → Type 0} (test : A → Bool) (xs : List A)
    → ((x : A) → test x ≡ true → P x)
    → all test xs ≡ true
    → All P xs
all-All test [] f h = tt
all-All test (x ∷ xs) f h =
    let (first, rest) = and_parts (test x) _ h in (f x first, all-All test xs f rest)

char : (c : ℕ) → is_identity_char c ≡ true → IdentityChar c
char c h = ground arith

hex : (c : ℕ) → is_hex c ≡ true → HexDigit c
unfolding is_hex
hex c h = ground arith

revision : (v : Json) → is_revision v ≡ true → IsRevision v
revision (int (pos n)) h = (n, refl, ground arith, ground arith)
revision (int (negsuc n)) h = cc
revision _ h = cc

one : (v : Json) → is_one v ≡ true → v ≡ int (pos 1)
one (int (pos n)) h = let same : n ≡ 1 = ground arith in ap (λ x. int (pos x)) same
one (int (negsuc n)) h = cc
one _ h = cc

bounded :
    (size : ℕ) (chars : Bool)
    → (leb 1 size && leb size 64 && chars) ≡ true
    → (1 ≤ size) × (size ≤ 64) × (chars ≡ true)
bounded size chars h = ground arith

identity : (v : Json) → is_identity v ≡ true → IsIdentity v
identity (str text) h =
    let (least, most, chars) =
      bounded (length (codes text)) (all is_identity_char (codes text)) h in
    (text, refl, least, most, all-All is_identity_char (codes text) char chars)
identity _ h = cc

model_hash :
    (v : Json)
    → is_model_hash v ≡ true
    → (text : String) × (v ≡ str text) × (length (codes text) ≡ 64) × All HexDigit (codes text)
model_hash (str text) h =
    let (size, chars) = and_parts (length (codes text) == 64) _ h in
    (text, refl, ground arith, all-All is_hex (codes text) hex chars)
model_hash _ h = cc

is_binding-Binding : (value : Fields) → is_binding value ≡ true → Binding value
unfolding is_binding has_exactly
is_binding-Binding value h =
    let (exact, revisions, schema, identities, model) =
      five (has_exactly semantic_fields value)
        (all (λ key. is_revision (find key value)) revision_names)
        (is_one (find "schema_version" value))
        (all (λ key. is_identity (find key value)) identity_names)
        (is_model_hash (find "model_sha256" value)) h in
    let (size, _) = and_parts (field_count value == 9) _ exact in
    let (_, (world, (task, _))) =
      all-All {P = λ key. IsRevision (find key value)} (λ key. is_revision (find key value))
        revision_names (λ key. revision (find key value)) revisions in
    record {
      nine = ground arith;
      schema = one _ schema;
      revisions = (world, (task, tt));
      identities =
          all-All {P = λ key. IsIdentity (find key value)} (λ key. is_identity (find key value))
            identity_names (λ key. identity (find key value)) identities;
      model = model_hash _ model;
    }
  where
    five :
        (a b c d e : Bool)
        → (a && b && c && d && e) ≡ true
        → (a ≡ true) × (b ≡ true) × (c ≡ true) × (d ≡ true) × (e ≡ true)
    five a b c d e h = ground arith

-- Where `semantic_binding` takes references out of a frame id, whatever the decoder of JSON does:
-- the frame id has the prefix and at most 2048 characters, the decoder reads the rest as an object
-- of nine fields, and these are the schema version 1, two revisions of 64 bits above zero, and six
-- identities of at most 64 letters, digits and `_.-`, of which the model hash is 64 lower-case
-- hexadecimal digits.
pub semantic_binding-Binding :
    (loads : List ℕ → Result Json) (frame_id : List ℕ) (value : Fields)
    → semantic_binding loads frame_id ≡ ok (some value)
    → (take 19 frame_id ≡ codes "haetae.semantic.v1:")
      × (length frame_id ≤ 2048)
      × (loads (drop 19 frame_id) ≡ ok (obj value))
      × Binding value
unfolding semantic_binding
semantic_binding-Binding loads frame_id value h =
    elim (if-cases (not (bytes_eq (take 19 frame_id) semantic_prefix)) _ _ _ h) [
      | inl (_, k) ↦ cc
      | inr (prefixed, k) ↦ elim (if-cases (ltb 2048 (length frame_id)) _ _ _ k) [
        | inl (_, k') ↦ cc
        | inr (short, k') ↦
            let (read, good) = decoded (loads (drop 19 frame_id)) refl k' in
            (bytes_eq-eq _ _ (ground arith), ground arith, read, good)
      ]
    ]
  where
    checked : (v : Json) → checked_binding v ≡ ok (some value) → (v ≡ obj value) × Binding value
    checked (obj fields) k = elim (if-cases (is_binding fields) _ _ _ k) [
      | inl (b, e) ↦
          let same : fields ≡ value = cc in
          (ap obj same, is_binding-Binding value (ap is_binding (sym same) ∙ b))
      | inr (b, e) ↦ cc
    ]
    checked _ k = cc

    decoded :
        (m : Result Json)
        → loads (drop 19 frame_id) ≡ m
        → elim m [ err e ↦ err (as_invalid e) | ok v ↦ checked_binding v ] ≡ ok (some value)
        → (loads (drop 19 frame_id) ≡ ok (obj value)) × Binding value
    decoded (err e) l k = cc
    decoded (ok v) l k = let (same, good) = checked v k in (l ∙ ap ok same, good)
