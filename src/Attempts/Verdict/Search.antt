-- ===== src/Attempts/Verdict/Search.antt =====
-- What the search of `refusal` in permit_attempts.py leaves, row by row.
use haetae.Prelude.{
  ◌≡◌, refl, sym, ◌∙◌, ◌⊎◌, inl, inr, arith, String, Bool, true, false, not, Option, none, some,
  List, [], ◌∷◌, All, if-cases, if◌then◌else◌,
}
use haetae.Prelude.Int.{pos, ◌+ℤ◌, ltb_ℤ, leb_ℤ, ◌≤ℤ◌, eq_of_parts, +ℤ_parts}
use haetae.Python.{Error, Result, ok, err, ◌>>=◌}
use haetae.Attempts.{Row, Grant, Controller, is_text, same_text, same_count, eq_ℤ}
use haetae.Attempts.Hold.{At, lapse_evidence}
use haetae.Attempts.Verdict.{
  Witness, since, Look, goes_on, undecided, lapsed, is_unchanged, before_refusal, first_refusal,
  look_at, look, going_on, scan, in_texts,
}

-- The row counts one rejection, for the reason that was expected, behind the packet, of a
-- controller that admitted nothing and was not activated again.
pub record Counts (w : Witness) (expected : String) (row : Row) : Type 0 where
  pub counted : row.rejected ≡ w.rejected_before +ℤ pos 1
  pub named : is_text expected row.reason ≡ true
  pub behind : w.sent_wall_ns ≤ℤ row.published_wall_ns

-- From the witness on, the controller admitted nothing, and rejected no more than the packet.
pub record Steady (w : Witness) (row : Row) : Type 0 where
  pub unchanged :
      (same_text row.nonce w.nonce_before ≡ true)
      × (same_count row.accepted w.accepted_before ≡ true)
  pub at_most_one : row.rejected ≤ℤ w.rejected_before +ℤ pos 1

abbrev pub IsSteady : Witness → Row → Type 0
IsSteady w row = since w ≤ℤ row.published_wall_ns → Steady w row

pub some_eq : {A : Type 0} (a b : A) → some a ≡ some b → a ≡ b
some_eq a b h = cc

-- A test that raises was not met where the call returned.
pub unless_raised :
    {A : Type 0} (b : Bool) (e : Error) (y : Result A) {z : A}
    → (if b then err e else y) ≡ ok z
    → (b ≡ false) × (y ≡ ok z)
unless_raised true e y h = cc
unless_raised false e y h = (refl, h)

module _ (target : Controller) (rows : List Row) (w : Witness) (expected : String)
    (timing : List String) (governing : Option Grant) where
  lapsed-goes_on :
      (verdict : Result (Option Bool)) (f : Option At) → (verdict >>= lapsed) ≡ ok (goes_on f) → ⊥
  lapsed-goes_on (err e) f h = cc
  lapsed-goes_on (ok none) f h = cc
  lapsed-goes_on (ok (some true)) f h = cc
  lapsed-goes_on (ok (some false)) f h = cc

  goes_on-injective : (f g : Option At) → ok (goes_on f) ≡ ok (goes_on g) → f ≡ g
  goes_on-injective f g h = cc

  -- What a row leaves: what was found, or the row itself.
  abbrev Left : Option At → At → Option At → Type 0
  Left found event f = (f ≡ found) ⊎ ((f ≡ some event) × Counts w expected event.row)

  before_refusal-goes_on :
      (event : At) (f g : Option At) (lease : Option Grant)
      → before_refusal target rows w expected timing governing event lease ≡ ok (goes_on f)
      → f ≡ none
  unfolding before_refusal
  before_refusal-goes_on event f g none h = cc
  before_refusal-goes_on event f g (some lease) h =
      elim (if-cases (not (is_text "expired" event.row.reason)) _ _ _ h) [
        | inl (b, k) ↦ sym (goes_on-injective none f k)
        | inr (b, k) ↦ absurd (lapsed-goes_on (lapse_evidence target rows event (some lease)) f k)
      ]

  first_refusal-goes_on :
      (event : At) (f : Option At)
      → first_refusal target rows w expected timing governing event ≡ ok (goes_on f)
      → (f ≡ some event) × (is_text expected event.row.reason ≡ true)
  unfolding first_refusal
  first_refusal-goes_on event f h = elim (if-cases (is_text expected event.row.reason) _ _ _ h) [
    | inl (b, k) ↦ (sym (goes_on-injective (some event) f k), b)
    | inr (b, k) ↦
        let (_, k2) = unless_raised (not (in_texts timing event.row.reason)) _ _ k in
        let (_, k3) = unless_raised (is_text "freshness" event.row.reason) _ _ k2 in
        absurd (lapsed-goes_on (lapse_evidence target rows event governing) f k3)
  ]

  look_at-goes_on :
      (found : Option At) (event : At) (f : Option At)
      → is_unchanged target rows w expected timing governing event.row ≡ true
      → look_at target rows w expected timing governing found event ≡ ok (goes_on f)
      → Steady w event.row × Left found event f
  unfolding look_at
  look_at-goes_on none event f same h =
      elim (if-cases (leb_ℤ event.row.rejected w.rejected_before) _ _ _ h) [
        | inl (b, k) ↦ (
          record {
            unchanged = (ground arith, ground arith);
            at_most_one = ground (arith, +ℤ_parts w.rejected_before (pos 1));
          },
          inl (before_refusal-goes_on event f none governing k),
        )
        | inr (b, k) ↦
            let (b1, k1) = unless_raised (ltb_ℤ event.row.published_wall_ns w.sent_wall_ns) _ _ k in
            let (b2, k2) =
              unless_raised (not (eq_ℤ event.row.rejected (w.rejected_before +ℤ pos 1))) _ _ k1 in
            let (e, n) = first_refusal-goes_on event f k2 in
            (
              record { unchanged = (ground arith, ground arith); at_most_one = ground arith },
              inr (
                e,
                record {
                  counted = eq_of_parts _ _ (ground arith);
                  named = n;
                  behind = ground arith;
                },
              ),
            )
      ]
  look_at-goes_on (some found) event f same h =
      let (b1, k1) = unless_raised (ltb_ℤ event.row.published_wall_ns w.sent_wall_ns) _ _ h in
      let (b2, k2) =
        unless_raised (not (eq_ℤ event.row.rejected (w.rejected_before +ℤ pos 1))) _ _ k1 in
      (
        record { unchanged = (ground arith, ground arith); at_most_one = ground arith },
        inl (sym (goes_on-injective (some found) f k2)),
      )

  look-goes_on :
      (found : Option At) (event : At) (f : Option At)
      → look target rows w expected timing governing found event ≡ ok (goes_on f)
      → IsSteady w event.row × Left found event f
  unfolding look
  look-goes_on found event f h =
      elim (if-cases (ltb_ℤ event.row.published_wall_ns (since w)) _ _ _ h) [
        | inl (b, k) ↦ (λ l. ground arith, inl (sym (goes_on-injective found f k)))
        | inr (b, k) ↦
            let (b1, k1) =
              unless_raised (not (is_unchanged target rows w expected timing governing event.row)) _
                _ k in
            let (s, l) = look_at-goes_on found event f (ground arith) k1 in (λ _. s, l)
      ]

  -- What the loop leaves.
  pub scan-goes_on :
      (rest : List Row) (found f : Option At)
      → scan target rows w expected timing governing rest found ≡ ok (goes_on f)
      → All (IsSteady w) rest
        × ((f ≡ found) ⊎ ((event : At) × (f ≡ some event) × Counts w expected event.row))
  unfolding scan
  scan-goes_on [] found f h = (tt, inl (sym (goes_on-injective found f h)))
  scan-goes_on (row ∷ rest) found f h =
      passed
        (look target rows w expected timing governing found (record { row = row; rest = rest }))
        refl h (scan-goes_on rest)
    where
      event : At
      event = record { row = row; rest = rest }

      found_later :
          (g : Option At)
          → Left found event g
          → ((f ≡ g) ⊎ ((e : At) × (f ≡ some e) × Counts w expected e.row))
          → (f ≡ found) ⊎ ((e : At) × (f ≡ some e) × Counts w expected e.row)
      found_later g l (inr r) = inr r
      found_later g (inl e) (inl e') = inl (e' ∙ e)
      found_later g (inr (e, c)) (inl e') = inr (event, e' ∙ e, c)

      passed :
          (seen : Result Look)
          → look target rows w expected timing governing found event ≡ seen
          → going_on target rows w expected timing governing
              (scan target rows w expected timing governing rest)
              seen
            ≡ ok (goes_on f)
          → ((found' f' : Option At)
              → scan target rows w expected timing governing rest found' ≡ ok (goes_on f')
              → All (IsSteady w) rest
                × ((f' ≡ found')
                    ⊎ ((event : At) × (f' ≡ some event) × Counts w expected event.row)))
          → All (IsSteady w) (row ∷ rest)
            × ((f ≡ found) ⊎ ((event : At) × (f ≡ some event) × Counts w expected event.row))
      passed (err e) l k others = cc
      passed (ok undecided) l k others = cc
      passed (ok (goes_on g)) l k others =
          let (s, step) = look-goes_on found event g l in
          let (more, r) = others g f k in ((s, more), found_later g step r)
