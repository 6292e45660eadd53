-- ===== src/Relay/Examples.antt =====
-- A reveal held for its sender.
use ngcore.Base.{
  ℕ, ◌+◌, ◌*◌, ◌≡◌, ◌≤◌, refl, Bool, true, false, Option, none, some, List, [], ◌∷◌, In, arith,
}
use ngcore.Params.{commit_window}
use ngcore.Forks.{zeronet}
use ngcore.Types.{Address, FullTx, transact_tx}
use ngcore.Maps.{lookup}
use ngcore.Envelope.{tx_from}
use ngcore.Envelope.Toy.{toy, toy_key, payer, salt16, signed_by}
use ngcore.Accounts.{State}
use ngcore.Accounts.Run.{Engine}
use ngcore.Relay.{Relay, held, relay_reveal, relay_reveals}
use ngcore.Relay.Bounded.{Within, relay_reveal-held, relay_reveals-retries}

abbrev engine : Engine
engine = record {
  imports_of = λ source. none;
  bs58_address = λ name. none;
  has_export = λ source entry. false;
  decode_commit_code = λ extra. none;
  run = λ s c tx time entry gas. record { gas_used = 0; calls = none };
}

abbrev funded : State
funded = record {
  network = zeronet;
  recorder = none;
  balances = record { current = (payer, 100) ∷ []; pre_images = []; history = []; leaves = [] };
  slots = record { current = []; pre_images = []; history = []; leaves = [] };
  code = [];
  keys = record { current = []; pre_images = []; history = []; leaves = [] };
  commits = record { pending = []; spent = []; leaves = [] };
  beacon = none;
  beacon_leaf = none;
  beacon_changes = [];
}

abbrev gift : FullTx
gift = signed_by toy_key (record {
  network = zeronet;
  type = transact_tx;
  height = 0;
  to = 77;
  value = 20;
  fee = 3;
  extra = [];
  sign = [];
  salt = salt16;
})

abbrev idle : Relay
idle = record { max_size = 1; commit_queue = []; reveal_queue = [] }

abbrev holding : Relay
holding = record { max_size = 1; commit_queue = []; reveal_queue = (payer, (gift, 16)) ∷ [] }

gift-held :
    relay_reveal toy engine (λ tx. 7) (λ tx. none) funded 9 idle gift
    ≡ held holding (record gift { height = 10 } ∷ [])
unfolding relay_reveal ngcore.Envelope.Sign.signature ngcore.Base.bytes_eq lookup ngcore.Maps.insert
gift-held = refl

relay_reveal-held_example :
    (from : Address) × (tx_from toy gift ≡ some from)
    × (lookup from holding.reveal_queue ≡ some (gift, 10 + 2 * commit_window))
    × In (record gift { height = 10 }) (record gift { height = 10 } ∷ [])
    × Within 1 holding.reveal_queue
relay_reveal-held_example =
    relay_reveal-held toy engine (λ tx. 7) (λ tx. none) funded 9 idle holding gift
      (record gift { height = 10 } ∷ []) (tt, omega arith) gift-held

relay_reveals-retries_example :
    In (record gift { height = 13 }) (relay_reveals 12 holding).1
    × (lookup payer (relay_reveals 12 holding).0.reveal_queue ≡ some (gift, 16))
unfolding lookup
relay_reveals-retries_example = relay_reveals-retries 12 holding payer gift 16 refl (omega arith)
