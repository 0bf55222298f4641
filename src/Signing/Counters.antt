-- ===== src/Signing/Counters.antt =====
-- ros/haetae_gate/counter_store.py and `SourceSigner.send` of ros/haetae_gate/source_node.py: a
-- counter is on disk before its envelope is published, so that no restart uses it again. The write
-- of `reserve` ends in `os.replace`, which is one step: the file is the old one or the new one.
pub mod Invariant
pub mod Order
use haetae.Prelude.{
  ℕ, ◌+◌, ◌≤◌, ◌<◌, ◌≡◌, ◌≢◌, refl, sym, ap, ◌∙◌, ◌⊎◌, inl, inr, arith, Bool, true, false, Option,
  none, some, List, [], ◌∷◌, ◌++◌, ◌==◌, if◌then◌else◌,
}
use haetae.Python.{Error, Result, ok, err, os_error}
use haetae.Signing.{
  Role, world, fault, vla, planner, teleop, peer, role_tag, same_role, Counters, update, Signer,
  Saved, Envelope, restored, sign,
}

-- The process, its counter file and what it has published, newest first.
pub record Source : Type 0 where
  pub signer : Signer
  pub disk : Option Saved
  pub published : List Envelope

-- `CounterStore.reserve`; `fails` is an error of the file system before the replacement.
unfoldable pub reserve : Bool → ℕ → Counters → Option Saved → Result (Option Saved)
reserve true epoch counters disk = err os_error
reserve false epoch counters disk = ok (some (record { auth_epoch = epoch; counters = counters }))

-- What the process has done of a `send` when it returns, raises or dies.
abbrev publish : Envelope → Source → Result (Option Saved) → Result (Unit {0}) × Source
publish envelope s (err e) = (err e, s)
publish envelope s (ok disk) = (ok tt, record s { disk = disk; published = envelope ∷ s.published })

-- The envelope is published behind the reservation; the counter in memory advances with the
-- signature, also where the reservation then fails.
unfoldable pub send :
    (Role → List ℕ → List ℕ) → Bool → Role → List ℕ → Source → Result (Unit {0}) × Source
unfolding reserve
send key_sign fails role payload s = elim (sign key_sign role payload s.signer) [
  | err e ↦ (err e, s)
  | ok (envelope, signer) ↦
      publish envelope (record s { signer = signer })
        (reserve fails signer.epoch signer.counters s.disk)
]

-- What can happen to a source: a `send` that runs to its end, a reservation whose envelope is lost
-- because the process dies, and a restart from the file with the same trust bundle and keys.
pub data Step (key_sign : Role → List ℕ → List ℕ) (s : Source) : Source → Type 0 where
  sends :
      (fails : Bool) (role : Role) (payload : List ℕ)
      → Step key_sign s (send key_sign fails role payload s).1
  loses :
      (role : Role) (payload : List ℕ) (envelope : Envelope) (signer : Signer)
      → sign key_sign role payload s.signer ≡ ok (envelope, signer)
      → Step key_sign s (record s {
        signer = signer;
        disk = some (record { auth_epoch = signer.epoch; counters = signer.counters });
      })
  restarts :
      (counters : Counters)
      → restored s.signer.epoch s.signer.has_key s.disk ≡ ok counters
      → Step key_sign s (record s { signer = record s.signer { counters = counters } })

pub data Reach (key_sign : Role → List ℕ → List ℕ) (s : Source) : Source → Type 0 where
  here : Reach key_sign s s
  next : {t u : Source} → Reach key_sign s t → Step key_sign t u → Reach key_sign s u
