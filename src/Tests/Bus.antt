-- ===== src/Tests/Bus.antt =====
-- A concrete event bus for the theorems on core/internal/apiserver/bus.go.
use abcmovies.Base.{
  text_key, ◌≡◌, refl, List, [], ◌∷◌, Text, text, Text-discrete, ◌==◌, Bool, blank, lookup, insert,
  delete, map_values, some,
}
use abcmovies.Schema.Events.{EventEnvelope, availability, audience_account}
use abcmovies.Api.Bus.{
  InMemoryBus, new_bus, set_account_entiter, publish, send, subscribe, unsubscribe, close_bus,
  receive,
}
use abcmovies.Api.Routing.{
  BusUse, publishes, subscribes, use_bus, IsRouted, use_bus-IsRouted, lookup-publish, after,
}

program : Unit {0}
unfolding Text-discrete blank lookup insert delete map_values new_bus set_account_entiter publish
    send subscribe unsubscribe close_bus receive use_bus
program = tt

abbrev event : EventEnvelope
event = record {
  id = text "e";
  event_type = 7;
  audience = audience_account;
  user_id = [];
  account_id = text "acc";
  payload = availability (text "acc") (text "p") (text "le_1");
}

-- Only Ann may use the account.
abbrev ann_only : Text → Text → Bool
ann_only account_id uid = uid == text "ann"

abbrev uses : List BusUse
uses =
    subscribes (text "1") (text "ann")
    ∷ subscribes (text "2") (text "bob")
    ∷ publishes (some event)
    ∷ []

ann_hears :
    lookup (text "1") (use_bus (set_account_entiter new_bus ann_only) uses).subscribers
    ≡ some (record { uid = text "ann"; ch = event ∷ [] })
unfolding program
ann_hears = refl

bob_does_not :
    lookup (text "2") (use_bus (set_account_entiter new_bus ann_only) uses).subscribers
    ≡ some (record { uid = text "bob"; ch = [] })
unfolding program
bob_does_not = refl

use_bus-IsRouted_example : IsRouted ann_only (use_bus (set_account_entiter new_bus ann_only) uses)
use_bus-IsRouted_example = use_bus-IsRouted ann_only uses

abbrev two : InMemoryBus
two = record {
  subscribers =
      (text "1", record { uid = text "ann"; ch = [] })
      ∷ (text "2", record { uid = text "bob"; ch = [] })
      ∷ [];
  account_entiter = some ann_only;
}

lookup-publish_example :
    lookup (text "1") (publish two (some event)).subscribers
    ≡ after two.account_entiter event (lookup (text "1") two.subscribers)
lookup-publish_example = lookup-publish two event (text "1")
