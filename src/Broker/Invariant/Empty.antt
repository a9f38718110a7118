-- ===== src/Broker/Invariant/Empty.antt =====
-- The map of the clients of broker/broker.go in every run.
use thoth.Base.{◌≡◌, refl, List, []}
use thoth.Broker.{Broker, new_broker}
use thoth.Broker.Valid.{IsBroker, IsBroker-IsKept}
use thoth.Broker.Kept.{IsKept}
use thoth.Broker.Invariant.{Event, run}
use thoth.Broker.Invariant.Runs.{run-kept, new_broker-IsBroker}

abbrev IsEmpty : Broker → Type 0
IsEmpty b = IsBroker b × (b.clients ≡ [])

IsEmpty-IsKept : IsKept IsEmpty
IsEmpty-IsKept = record {
  provider = λ b v. IsBroker-IsKept.provider b v.0;
  acts = λ c e b v. (IsBroker-IsKept.acts c e b v.0, v.1);
  owns = λ c f b own v. (IsBroker-IsKept.owns c f b own v.0, v.1);
  forgets_will = λ c b v. (IsBroker-IsKept.forgets_will c b v.0, v.1);
  retains = λ packet b v. (IsBroker-IsKept.retains packet b v.0, v.1);
  unsubscribes = λ topic x b v. (IsBroker-IsKept.unsubscribes topic x b v.0, v.1);
  subscribes = λ s topic qos b l v. (IsBroker-IsKept.subscribes s topic qos b l v.0, v.1);
  changes_session = λ a f b v. (IsBroker-IsKept.changes_session a f b v.0, v.1);
  opens = λ store b h l v. (IsBroker-IsKept.opens store b h l v.0, v.1);
  joins = λ typ info a b l v. (IsBroker-IsKept.joins typ info a b l v.0, v.1);
  notes = λ nodes bridged b v. (IsBroker-IsKept.notes nodes bridged b v.0, v.1);
  routed = λ cid c b l v. (IsBroker-IsKept.routed cid c b l v.0, v.1);
}

-- In every run of a new broker, whatever end users connect, the map of the clients stays empty, so that no
-- second connection finds the first one of its identifier there.
pub run-clients : (es : List Event) → (run es new_broker).clients ≡ []
run-clients es = (run-kept IsEmpty IsEmpty-IsKept es new_broker (new_broker-IsBroker, refl)).1
