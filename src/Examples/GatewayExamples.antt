-- ===== src/Examples/GatewayExamples.antt =====
-- A store with no share and a feed with no listener (packages/gateway/src/store.ts).
use cueloop.Prelude.{◌≡◌, refl, [], ◌∷◌, Text, text_dec, nat_eq}
use cueloop.Gateway.Blobs.{blob_of, set_blob, delete_blob, retention_key, agent_suffix}
use cueloop.Gateway.Feed.{
  Feed, subscribe, unsubscribe, notify, set_of, forget, notify-unsubscribe_twice,
}

program : Unit {0}
unfolding text_dec native.Mathlib.Decide.ℕ_discrete blob_of set_blob delete_blob retention_key
    set_of forget
program = tt

abbrev share : Text
share = 1 ∷ []

abbrev companion : Text
companion = 1 ∷ agent_suffix

abbrev feed : Feed
feed = record { sets = []; listeners = []; microtasks = [] }

notify-unsubscribe_twice_example :
    let (once, subscription) = subscribe feed share 4 in
    let (again, _) = subscribe (unsubscribe once subscription) share 5 in
    (notify (unsubscribe again subscription) share).microtasks ≡ []
unfolding program
notify-unsubscribe_twice_example = notify-unsubscribe_twice feed share 4 5 refl
