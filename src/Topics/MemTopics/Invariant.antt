-- ===== src/Topics/MemTopics/Invariant.antt =====
-- What every history of calls keeps true of the provider.
use thoth.Base.{ℕ, Bytes, List, [], ◌∷◌, Bool-cases, length, ◌==◌, inl, inr}
use thoth.Packets.{PublishPacket}
use thoth.Topics.Levels.{levels}
use thoth.Topics.Value.{Value}
use thoth.Topics.Snode.Levels.{sinsert-eq-insert_at, sremove-eq-remove_from}
use thoth.Topics.Snode.Shape.{IsSnode, new_snode-IsSnode, insert_at-IsSnode, remove_from-IsSnode}
use thoth.Topics.Rnode.Levels.{rinsert-eq-insert_at, rremove-eq-remove_from}
use thoth.Topics.Rnode.Lookup.{IsRnode}
use thoth.Topics.Rnode.Shape.{new_rnode-IsRnode, insert_at-IsRnode, remove_from-IsRnode}
use thoth.Topics.Snode.{Snode, sinsert}
use thoth.Topics.MemTopics.{
  MemTopics, new_mem_provider, subscribe, unsubscribe, retain, fuel, valid_qos, is_nil_value,
}

-- The calls that change the provider.
pub data Call : Type 0 where
  subscribes : Bytes → ℕ → Value → Call
  unsubscribes : Bytes → Value → Call
  retains : PublishPacket → Call

unfoldable pub step : Call → MemTopics → MemTopics
step (subscribes topic qos sub) t = (subscribe topic qos sub t).0
step (unsubscribes topic sub) t = (unsubscribe topic sub t).0
step (retains msg) t = (retain msg t).0

unfoldable pub run : List Call → MemTopics → MemTopics
run [] t = t
run (c ∷ cs) t = run cs (step c t)

-- In both trees no key stands twice, and each subscriber has one QoS.
pub record IsMemTopics (t : MemTopics) : Type 0 where
  pub snodes : IsSnode t.sroot
  pub rnodes : IsRnode t.rroot

pub new_mem_provider-IsMemTopics : IsMemTopics new_mem_provider
new_mem_provider-IsMemTopics = record { snodes = new_snode-IsSnode; rnodes = new_rnode-IsRnode }

sinsert-IsSnode :
    (f : ℕ) (topic : Bytes) (qos : ℕ) (sub : Value) (n : Snode)
    → IsSnode n
    → IsSnode (sinsert f topic qos sub n).0
sinsert-IsSnode f topic qos sub n w =
    rw (sinsert-eq-insert_at f topic qos sub n) (insert_at-IsSnode (levels f topic) qos sub n w)

subscribe-IsMemTopics :
    (topic : Bytes) (qos : ℕ) (sub : Value) (t : MemTopics)
    → IsMemTopics t
    → IsMemTopics (subscribe topic qos sub t).0
unfolding subscribe
subscribe-IsMemTopics topic qos sub t w = elim (Bool-cases (valid_qos qos)) [
  | inr v ↦ rw (v, subscribe) w
  | inl v ↦
      rw (v, subscribe)
        (elim (Bool-cases (is_nil_value sub)) [
          | inl c ↦ rw c w
          | inr c ↦ rw c (record {
            snodes = sinsert-IsSnode (fuel topic) topic _ sub t.sroot w.snodes;
            rnodes = w.rnodes;
          })
        ])
]

retain-IsMemTopics :
    (msg : PublishPacket) (t : MemTopics) → IsMemTopics t → IsMemTopics (retain msg t).0
unfolding retain
retain-IsMemTopics msg t w = elim (Bool-cases (length msg.payload == 0)) [
  | inl e ↦
      rw (e, retain)
        (record {
          snodes = w.snodes;
          rnodes =
              rw (rremove-eq-remove_from (fuel msg.topic_name) msg.topic_name t.rroot) (
                remove_from-IsRnode (levels (fuel msg.topic_name) msg.topic_name) t.rroot w.rnodes);
        })
  | inr e ↦
      rw (e, retain)
        (record {
          snodes = w.snodes;
          rnodes = rw (rinsert-eq-insert_at (fuel msg.topic_name) msg.topic_name msg t.rroot) (
              insert_at-IsRnode (levels (fuel msg.topic_name) msg.topic_name) msg t.rroot w.rnodes);
        })
]

-- Every call keeps the trees well-formed, whether it returns an error or not.
pub step-IsMemTopics : (c : Call) (t : MemTopics) → IsMemTopics t → IsMemTopics (step c t)
unfolding step unsubscribe
step-IsMemTopics (subscribes topic qos sub) t w = subscribe-IsMemTopics topic qos sub t w
step-IsMemTopics (unsubscribes topic sub) t w = record {
  snodes =
      rw (sremove-eq-remove_from (fuel topic) topic sub t.sroot)
        (remove_from-IsSnode (levels (fuel topic) topic) sub t.sroot w.snodes);
  rnodes = w.rnodes;
}
step-IsMemTopics (retains msg) t w = retain-IsMemTopics msg t w

-- After any sequence of calls, with and without errors, on a provider whose trees are well-formed,
-- they are well-formed.
pub run-IsMemTopics : (cs : List Call) (t : MemTopics) → IsMemTopics t → IsMemTopics (run cs t)
unfolding run
run-IsMemTopics [] t w = w
run-IsMemTopics (c ∷ cs) t w = run-IsMemTopics cs (step c t) (step-IsMemTopics c t w)
