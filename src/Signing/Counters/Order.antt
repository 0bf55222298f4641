-- ===== src/Signing/Counters/Order.antt =====
-- No counter of a role is published twice, across failures and restarts.
use haetae.Prelude.{ℕ, ◌<◌, ◌≡◌, refl, sym, subst, inl, inr, arith, List, [], ◌∷◌, ◌++◌}
use haetae.Python.{ok}
use haetae.Signing.{Role, Envelope, restored}
use haetae.Signing.Counters.Invariant.{Falling, Inv, Reach-Inv, restored-le}
use haetae.Signing.Counters.{Source, Reach}

Falling-lt :
    (r : Role) (b : ℕ) (ys : List Envelope) (q : Envelope) (zs : List Envelope)
    → Falling r b (ys ++ q ∷ zs)
    → q.role ≡ r
    → q.counter < b
Falling-lt r b [] q zs (inl (_, h, _)) e = h
Falling-lt r b [] q zs (inr (other, _)) e = absurd (other e)
Falling-lt r b (y ∷ ys) q zs (inl (_, h, rest)) e =
    omega (arith, Falling-lt r y.counter ys q zs rest e)
Falling-lt r b (y ∷ ys) q zs (inr (_, rest)) e = Falling-lt r b ys q zs rest e

Falling-behind :
    (r : Role) (b : ℕ) (xs : List Envelope) (p : Envelope) (rest : List Envelope)
    → Falling r b (xs ++ p ∷ rest)
    → p.role ≡ r
    → Falling r p.counter rest
Falling-behind r b [] p rest (inl (_, _, h)) e = h
Falling-behind r b [] p rest (inr (other, _)) e = absurd (other e)
Falling-behind r b (x ∷ xs) p rest (inl (_, _, h)) e = Falling-behind r x.counter xs p rest h e
Falling-behind r b (x ∷ xs) p rest (inr (_, h)) e = Falling-behind r b xs p rest h e

-- A source that has published nothing, with the counters that `__init__` restores.
pub record IsStart (s : Source) : Type 0 where
  pub silent : s.published ≡ []
  pub loaded : restored s.signer.epoch s.signer.has_key s.disk ≡ ok s.signer.counters

start-Inv : (s : Source) → IsStart s → Inv s
start-Inv s h = record {
  in_memory =
      λ r key. restored-le s.signer.epoch s.signer.has_key s.disk s.signer.counters r h.loaded key;
  on_disk = λ r. subst (Falling r _) (sym h.silent) tt;
}

-- Of two envelopes of one role that a source publishes, across failed writes, lost envelopes and
-- restarts, the later one has the larger counter.
pub published-lt :
    (key_sign : Role → List ℕ → List ℕ) (s t : Source) (xs ys zs : List Envelope) (p q : Envelope)
    → IsStart s
    → Reach key_sign s t
    → t.published ≡ xs ++ p ∷ (ys ++ q ∷ zs)
    → q.role ≡ p.role
    → q.counter < p.counter
published-lt key_sign s t xs ys zs p q start reach e same =
    let v = Reach-Inv key_sign (start-Inv s start) reach in
    Falling-lt p.role p.counter ys q zs
      (Falling-behind p.role _ xs p (ys ++ q ∷ zs) (subst (Falling p.role _) e (v.on_disk p.role))
        refl)
      same
