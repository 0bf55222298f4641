-- ===== src/Signing/Counters/Invariant.antt =====
-- The invariant of a source: what is on disk covers what is published.
use haetae.Prelude.{
  ℕ, ◌+◌, ◌≤◌, ◌<◌, ◌≡◌, ◌≢◌, refl, sym, ap, ◌∙◌, subst, ◌⊎◌, inl, inr, arith, Bool, true, false,
  not, Option, none, some, List, [], ◌∷◌, ◌==◌, ltb, if◌then◌else◌, Bool-cases, ==_iff,
}
use haetae.Python.{Result, ok, value_error, raise_if, >>=-eq-ok, ok-injective, ◌>>◌}
use mathlib.Core.Bool.{false≢true}
use haetae.Signing.Message.{role_tag-injective}
use haetae.Permits.Signer.Observe.{Result-cases}
use haetae.Signing.{
  Role, role_tag, same_role, Counters, update, Signer, Saved, Envelope, restored, input_message,
  sign,
}
use haetae.Signing.Counters.{Source, reserve, send, Step, sends, loses, restarts, Reach, here, next}

-- The published counters of a role fall along the list, newest first, from below the bound.
abbrev pub Falling : Role → ℕ → List Envelope → Type 0
Falling r bound [] = Unit
Falling r bound (e ∷ es) =
    ((e.role ≡ r) × (e.counter < bound) × Falling r e.counter es)
    ⊎ ((e.role ≢ r) × Falling r bound es)

Falling-mono :
    (r : Role) (b b' : ℕ) (es : List Envelope) → b ≤ b' → Falling r b es → Falling r b' es
Falling-mono r b b' [] h f = tt
Falling-mono r b b' (e ∷ es) h (inl (p, q, f)) = inl (p, omega arith, f)
Falling-mono r b b' (e ∷ es) h (inr (p, f)) = inr (p, Falling-mono r b b' es h f)

-- The last counter that the file reserves for the epoch.
abbrev pub reserved : ℕ → Option Saved → Role → ℕ
reserved epoch none r = 0
reserved epoch (some d) r = if d.auth_epoch == epoch then d.counters r else 0

-- No envelope is published for a role without a key.
abbrev pub bound : Bool → ℕ → ℕ
bound true n = n + 1
bound false n = 0

pub record Inv (s : Source) : Type 0 where
  pub in_memory :
      (r : Role)
      → s.signer.has_key r ≡ true
      → reserved s.signer.epoch s.disk r ≤ s.signer.counters r
  pub on_disk :
      (r : Role)
      → Falling r (bound (s.signer.has_key r) (reserved s.signer.epoch s.disk r)) s.published

pub signed :
    {A : Type 0} (test : Bool) (m : Result A) {a : A}
    → (do raise_if (not test) value_error; m) ≡ ok a
    → (test ≡ true) × (m ≡ ok a)
signed true m h = (refl, h)
signed false m h = cc

pub sign-eq :
    (key_sign : Role → List ℕ → List ℕ) (role : Role) (payload : List ℕ) (s s' : Signer)
    (envelope : Envelope)
    → sign key_sign role payload s ≡ ok (envelope, s')
    → (s.has_key role ≡ true)
      × (envelope.role ≡ role)
      × (envelope.counter ≡ s.counters role + 1)
      × (s' ≡ record s { counters = update s.counters role (s.counters role + 1) })
unfolding sign
sign-eq key_sign role payload s s' envelope h =
    let (key, h1) = signed (s.has_key role) _ h in
    let (message, _, h2) =
      >>=-eq-ok (input_message s.audience s.epoch (s.counters role + 1) role payload) _ h1 in
    let e = ok-injective h2 in
    (key, ap (λ x. x.0.role) (sym e), ap (λ x. x.0.counter) (sym e), ap (λ x. x.1) (sym e))

same_role-cases :
    (r q : Role) → ((r ≡ q) × (same_role r q ≡ true)) ⊎ ((r ≢ q) × (same_role r q ≡ false))
same_role-cases r q = elim (Bool-cases (same_role r q)) [
  | inl yes' ↦ inl (role_tag-injective r q ((==_iff (role_tag r) (role_tag q)).0 yes'), yes')
  | inr no' ↦
      inr ((λ e. false≢true (sym no' ∙ (==_iff (role_tag r) (role_tag q)).1 (ap role_tag e))), no')
]

bound_mono : (b : Bool) (m n : ℕ) → (b ≡ true → m ≤ n) → bound b m ≤ bound b n
bound_mono true m n h = omega (arith, h refl)
bound_mono false m n h = omega arith

reserved_self :
    (epoch : ℕ) (counters : Counters) (r : Role)
    → reserved epoch (some (record { auth_epoch = epoch; counters = counters })) r ≡ counters r
reserved_self epoch counters r = rw ((==_iff epoch epoch).1 refl)

update-le : (c : Counters) (role r : Role) → c r ≤ update c role (c role + 1) r
update-le c role r = elim (same_role-cases role r) [
  | inl (e, t) ↦ rw t (subst (λ q. c q ≤ c role + 1) e (omega arith))
  | inr (_, t) ↦ rw t (omega arith)
]

abbrev with_counters : Source → Counters → Source
with_counters s c = record s { signer = record s.signer { counters = c } }

abbrev with_disk : Source → Counters → Source
with_disk s c = record s {
  signer = record s.signer { counters = c };
  disk = some (record { auth_epoch = s.signer.epoch; counters = c });
}

-- Counters that only grew in memory.
grown-Inv :
    (s : Source) (c : Counters)
    → ((r : Role) → s.signer.counters r ≤ c r)
    → Inv s
    → Inv (with_counters s c)
grown-Inv s c le v = record {
  in_memory = λ r h. omega (arith, v.in_memory r h, le r);
  on_disk = v.on_disk;
}

reserved-Inv :
    (s : Source) (c : Counters)
    → ((r : Role) → s.signer.counters r ≤ c r)
    → Inv s
    → Inv (with_disk s c)
reserved-Inv s c le v = record {
  in_memory = λ r h. rw (reserved_self s.signer.epoch c r) (omega arith);
  on_disk = λ r. rw (reserved_self s.signer.epoch c r) (
      Falling-mono r _ _ s.published
        (bound_mono (s.signer.has_key r) _ _ (λ h. omega (arith, v.in_memory r h, le r)))
        (v.on_disk r));
}

own :
    (s : Source) (role : Role) (e : Envelope)
    → s.signer.has_key role ≡ true
    → e.counter ≡ s.signer.counters role + 1
    → Inv s
    → (e.counter
        < bound
            (s.signer.has_key role)
            (update s.signer.counters role (s.signer.counters role + 1) role))
      × Falling role e.counter s.published
own s role e key is_next v = (
  rw (key, (==_iff (role_tag role) (role_tag role)).1 refl) (omega arith),
  Falling-mono role _ e.counter s.published (omega (arith, v.in_memory role key)) (
      subst (λ b. Falling role (bound b (reserved s.signer.epoch s.disk role)) s.published) key
        (v.on_disk role)),
)

-- The published envelope is the next one of its role.
published-Inv :
    (s : Source) (role : Role) (e : Envelope)
    → s.signer.has_key role ≡ true
    → e.role ≡ role
    → e.counter ≡ s.signer.counters role + 1
    → Inv s
    → Inv (record (with_disk s (update s.signer.counters role (s.signer.counters role + 1))) {
      published = e ∷ s.published;
    })
published-Inv s role e key is_role is_next v =
    let c = s.signer.counters in
    let c' = update c role (c role + 1) in
    let kept = reserved-Inv s c' (update-le c role) v in
    record {
      in_memory = kept.in_memory;
      on_disk = λ r. elim (same_role-cases role r) [
        | inl (same, t) ↦
            let at_r =
              subst
                (λ q.
                  (e.counter < bound (s.signer.has_key q) (c' q)) × Falling q e.counter s.published)
                same (own s role e key is_next v) in
            inl (is_role ∙ same, rw (reserved_self s.signer.epoch c' r) at_r.0, at_r.1)
        | inr (other, t) ↦ inr ((λ p. other (sym is_role ∙ p)), kept.on_disk r)
      ];
    }

restored_same :
    (epoch : ℕ) (has_key : Role → Bool) (d : Saved) (counters : Counters) (r : Role)
    → restored epoch has_key (some d) ≡ ok counters
    → (d.auth_epoch == epoch) ≡ true
    → has_key r ≡ true
    → d.counters r ≡ counters r
unfolding restored
restored_same epoch has_key d counters r h same key =
    let not_later : ltb epoch d.auth_epoch ≡ false = ground arith in
    let e = ok-injective (rw (not_later, same, restored) at h) in sym (rw key) ∙ ap (λ c. c r) e

pub restored-le :
    (epoch : ℕ) (has_key : Role → Bool) (disk : Option Saved) (counters : Counters) (r : Role)
    → restored epoch has_key disk ≡ ok counters
    → has_key r ≡ true
    → reserved epoch disk r ≤ counters r
restored-le epoch has_key none counters r h key = omega arith
restored-le epoch has_key (some d) counters r h key = elim (Bool-cases (d.auth_epoch == epoch)) [
  | inl same ↦ rw same (omega (arith, restored_same epoch has_key d counters r h same key))
  | inr other ↦ rw other (omega arith)
]

abbrev sent : Source → Signer → Source
sent s signer = record s {
  signer = signer;
  disk = some (record { auth_epoch = signer.epoch; counters = signer.counters });
}

module _ (key_sign : Role → List ℕ → List ℕ) (s : Source) (role : Role) (payload : List ℕ)
    (envelope : Envelope) (signer : Signer)
    (h : sign key_sign role payload s.signer ≡ ok (envelope, signer)) (v : Inv s) where
  lost-Inv : Inv (sent s signer)
  lost-Inv =
      subst (λ x. Inv (sent s x)) (sym (sign-eq key_sign role payload s.signer signer envelope h).3)
        (reserved-Inv s _ (update-le s.signer.counters role) v)

  unreserved-Inv : Inv (record s { signer = signer })
  unreserved-Inv =
      subst (λ x. Inv (record s { signer = x }))
        (sym (sign-eq key_sign role payload s.signer signer envelope h).3)
        (grown-Inv s _ (update-le s.signer.counters role) v)

  sent-Inv : Inv (record (sent s signer) { published = envelope ∷ s.published })
  sent-Inv =
      let (key, is_role, is_next, e) = sign-eq key_sign role payload s.signer signer envelope h in
      subst (λ x. Inv (record (sent s x) { published = envelope ∷ s.published })) (sym e)
        (published-Inv s role envelope key is_role is_next v)

send-Inv :
    (key_sign : Role → List ℕ → List ℕ) (s : Source) (fails : Bool) (role : Role) (payload : List ℕ)
    → Inv s
    → Inv (send key_sign fails role payload s).1
unfolding send reserve
send-Inv key_sign s true role payload v =
    elim (Result-cases (sign key_sign role payload s.signer)) [
      | inl ((envelope, signer), e) ↦
          rw (e, send) (unreserved-Inv key_sign s role payload envelope signer e v)
      | inr (x, e) ↦ rw (e, send) v
    ]
send-Inv key_sign s false role payload v =
    elim (Result-cases (sign key_sign role payload s.signer)) [
      | inl ((envelope, signer), e) ↦
          rw (e, send) (sent-Inv key_sign s role payload envelope signer e v)
      | inr (x, e) ↦ rw (e, send) v
    ]

-- Every step keeps it: what is on disk covers what is published, and memory what is on disk.
pub Step-Inv :
    (key_sign : Role → List ℕ → List ℕ) {s t : Source} → Step key_sign s t → Inv s → Inv t
Step-Inv key_sign {s} (sends fails role payload) v = send-Inv key_sign s fails role payload v
Step-Inv key_sign {s} (loses role payload envelope signer h) v =
    lost-Inv key_sign s role payload envelope signer h v
Step-Inv key_sign {s} (restarts counters h) v = record {
  in_memory = λ r key. restored-le s.signer.epoch s.signer.has_key s.disk counters r h key;
  on_disk = v.on_disk;
}

pub Reach-Inv :
    (key_sign : Role → List ℕ → List ℕ) {s t : Source} → Inv s → Reach key_sign s t → Inv t
Reach-Inv key_sign v here = v
Reach-Inv key_sign v (next r step) = Step-Inv key_sign step (Reach-Inv key_sign v r)
