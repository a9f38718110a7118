-- ===== src/Topics/MemTopics/Termination.antt =====
-- The recursions of the two trees end within the fuel that the provider gives them.
use thoth.Base.{ℕ, inl, inr, List, Bytes, arith, length, ◌==◌, Bool-cases}
use thoth.Packets.{PublishPacket}
use thoth.Topics.Levels.{levels}
use thoth.Topics.Levels.InTime.{IsProper, IsInTime, levels-IsInTime}
use thoth.Topics.Value.{Value}
use thoth.Topics.Snode.Levels.{sinsert-eq-insert_at, sremove-eq-remove_from, smatch-eq-match_at}
use thoth.Topics.Snode.InTime as SnodeTime
use thoth.Topics.Snode.{Found}
use thoth.Topics.Rnode.Levels.{rinsert-eq-insert_at, rremove-eq-remove_from, rmatch-eq-match_at}
use thoth.Topics.Rnode.InTime as RnodeTime
use thoth.Topics.MemTopics.{
  MemTopics, fuel, valid_qos, is_nil_value, subscribe, unsubscribe, subscribers, retain, retained,
}

in_time : (topic : Bytes) → IsInTime (levels (fuel topic) topic)
in_time topic = levels-IsInTime (fuel topic) topic (omega arith)

subscribe-IsProper :
    (topic : Bytes) (qos : ℕ) (sub : Value) (t : MemTopics) → IsProper (subscribe topic qos sub t).2
unfolding subscribe
subscribe-IsProper topic qos sub t = elim (Bool-cases (valid_qos qos)) [
  | inr v ↦ rw (v, subscribe) (λ h. cc)
  | inl v ↦
      rw (v, subscribe)
        (elim (Bool-cases (is_nil_value sub)) [
          | inl c ↦ rw c (λ h. cc)
          | inr c ↦
              rw (c, sinsert-eq-insert_at (fuel topic) topic _ sub t.sroot)
                (SnodeTime.insert_at-IsProper (levels (fuel topic) topic) _ sub t.sroot
                  (in_time topic))
        ])
]

unsubscribe-IsProper :
    (topic : Bytes) (sub : Value) (t : MemTopics) → IsProper (unsubscribe topic sub t).1
unfolding unsubscribe
unsubscribe-IsProper topic sub t =
    rw (sremove-eq-remove_from (fuel topic) topic sub t.sroot)
      (SnodeTime.remove_from-IsProper (levels (fuel topic) topic) sub t.sroot (in_time topic))

subscribers-IsProper :
    (topic : Bytes) (qos : ℕ) (t : MemTopics) (out : Found)
    → IsProper (subscribers topic qos t out).1
unfolding subscribers
subscribers-IsProper topic qos t out = elim (Bool-cases (valid_qos qos)) [
  | inr v ↦ rw (v, subscribers) (λ h. cc)
  | inl v ↦
      rw (v, subscribers, smatch-eq-match_at (fuel topic) topic qos t.sroot _)
        (SnodeTime.match_at-IsProper (levels (fuel topic) topic) qos t.sroot _ (in_time topic))
]

retain-IsProper : (msg : PublishPacket) (t : MemTopics) → IsProper (retain msg t).1
unfolding retain
retain-IsProper msg t = elim (Bool-cases (length msg.payload == 0)) [
  | inl e ↦
      rw (e, retain, rremove-eq-remove_from (fuel msg.topic_name) msg.topic_name t.rroot)
        (RnodeTime.remove_from-IsProper (levels (fuel msg.topic_name) msg.topic_name) t.rroot
          (in_time msg.topic_name))
  | inr e ↦
      rw (e, retain, rinsert-eq-insert_at (fuel msg.topic_name) msg.topic_name msg t.rroot)
        (RnodeTime.insert_at-IsProper (levels (fuel msg.topic_name) msg.topic_name) msg t.rroot
          (in_time msg.topic_name))
]

-- On every topic, `Subscribe`, `Unsubscribe`, `Subscribers`, `Retain` and `Retained` return without
-- running out of the fuel that they are given.
pub calls-IsProper :
    (topic : Bytes) (qos : ℕ) (sub : Value) (msg : PublishPacket) (t : MemTopics) (out : Found)
    (msgs : List PublishPacket)
    → IsProper (subscribe topic qos sub t).2
      × IsProper (unsubscribe topic sub t).1
      × IsProper (subscribers topic qos t out).1
      × IsProper (retain msg t).1
      × IsProper (retained topic t msgs).1
unfolding retained
calls-IsProper topic qos sub msg t out msgs = (
  subscribe-IsProper topic qos sub t,
  unsubscribe-IsProper topic sub t,
  subscribers-IsProper topic qos t out,
  retain-IsProper msg t,
  rw (rmatch-eq-match_at (fuel topic) topic t.rroot msgs)
      (RnodeTime.match_at-IsProper (levels (fuel topic) topic) t.rroot msgs (in_time topic)),
)
