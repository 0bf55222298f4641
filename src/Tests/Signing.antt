-- ===== src/Tests/Signing.antt =====
-- Envelopes of signing.py and a source that restarts.
use haetae.Prelude.{ℕ, ◌≡◌, ◌<◌, refl, true, false, none, List, [], ◌∷◌, ◌++◌, codes}
use haetae.Prelude.Bytes.{big_endian}
use haetae.Python.{ok}
use haetae.Signing.{Role, vla, Envelope, Counters, update, pack, input_message, sign, restored}
use haetae.Signing.Message.{input_message-injective}
use haetae.Signing.Counters.{Source, send, reserve, Step, sends, restarts, Reach, here, next}
use haetae.Signing.Counters.Order.{IsStart, published-lt}

abbrev bytes : List ℕ
bytes =
    104 ∷ 97 ∷ 101 ∷ 116 ∷ 97 ∷ 101 ∷ 45 ∷ 105 ∷ 110 ∷ 112 ∷ 117 ∷ 116 ∷ 45 ∷ 118 ∷ 49 ∷ 0 ∷ 0 ∷ 0
    ∷ 0 ∷ 3 ∷ 98 ∷ 111 ∷ 116 ∷ 0 ∷ 0 ∷ 0 ∷ 0 ∷ 0 ∷ 0 ∷ 0 ∷ 7 ∷ 0 ∷ 0 ∷ 0 ∷ 0 ∷ 0 ∷ 0 ∷ 0 ∷ 3 ∷ 3 ∷ 0
    ∷ 0 ∷ 0 ∷ 2 ∷ 123 ∷ 125 ∷ []

message_bytes : input_message (codes "bot") 7 3 vla (codes "{}") ≡ ok bytes
unfolding input_message pack big_endian
message_bytes = refl

input_message-injective_example :
    (codes "bot" ≡ codes "bot")
    × (◌≡◌ {A = ℕ} 7 7)
    × (◌≡◌ {A = ℕ} 3 3)
    × (vla ≡ vla)
    × (codes "{}" ≡ codes "{}")
input_message-injective_example =
    input_message-injective (codes "bot") (codes "bot") 7 7 3 3 vla vla (codes "{}") (codes "{}")
      bytes message_bytes message_bytes

abbrev pub key_sign : Role → List ℕ → List ℕ
key_sign role message = []

abbrev pub fresh : Source
fresh = record {
  signer = record { audience = codes "bot"; epoch = 7; has_key = λ _. true; counters = λ _. 0 };
  disk = none;
  published = [];
}

-- Published, restarted from the file, and published again.
abbrev once : Source
once = (send key_sign false vla [] fresh).1

abbrev kept : Counters
kept role = update (λ _. 0) vla 1 role

abbrev restarted : Source
restarted = record once { signer = record fresh.signer { counters = kept } }

abbrev twice : Source
twice = (send key_sign false vla [] restarted).1

restart_restores : restored once.signer.epoch once.signer.has_key once.disk ≡ ok kept
unfolding restored send reserve sign input_message pack
restart_restores = refl

once_signer : once.signer ≡ record fresh.signer { counters = kept }
unfolding send reserve sign input_message pack
once_signer = refl

restarts_once : Step key_sign once restarted
unfolding send reserve sign input_message pack
restarts_once = restarts kept restart_restores

reaches_twice : Reach key_sign fresh twice
reaches_twice = next (next (next here (sends false vla [])) restarts_once) (sends false vla [])

abbrev envelope : ℕ → Envelope
envelope n = record {
  audience = codes "bot";
  epoch = 7;
  counter = n;
  role = vla;
  payload = [];
  signature = [];
}

published_twice : twice.published ≡ [] ++ envelope 2 ∷ ([] ++ envelope 1 ∷ [])
unfolding send reserve sign input_message pack
published_twice = refl

fresh-IsStart : IsStart fresh
unfolding restored
fresh-IsStart = record { silent = refl; loaded = refl }

published-lt_example : 1 < 2
published-lt_example =
    published-lt key_sign fresh twice [] [] [] (envelope 2) (envelope 1) fresh-IsStart reaches_twice
      published_twice refl
