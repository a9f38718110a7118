-- ===== src/Topics/Examples.antt =====
-- Runs of the code of broker/persistence/topics/memtopics.go on small inputs.
use mathlib.Core.List.{Perm}
use thoth.Base.{
  ◌≡◌, ◌≢◌, ◌↔◌, refl, arith, true, false, not, ◌&&◌, none, some, List, [], ◌∷◌, ◌++◌, map, Bytes,
  if◌then◌else◌,
}
use thoth.Packets.{PublishPacket}
use thoth.Topics.Level.{ok, swc, round, scan, next_topic_level}
use thoth.Topics.Level.Splits.{Splits, next_topic_level-iff-Splits}
use thoth.Topics.Levels.{levels}
use thoth.Topics.Levels.InTime.{IsProper}
use thoth.Topics.Matching.{matches}
use thoth.Topics.Trie.{find, put}
use thoth.Topics.Value.{Value, equal}
use thoth.Topics.Snode.{Found, sinsert, insert_here, index_of}
use thoth.Topics.Snode.Entries as SnodeEntries
use thoth.Topics.Snode.Entries.{holds}
use thoth.Topics.Snode.Match.{hits}
use thoth.Topics.Snode.Shape.{new_snode-IsSnode}
use thoth.Topics.Snode.Pruned.{IsPruned}
use thoth.Topics.Rnode.Answers as RnodeAnswers
use thoth.Topics.Rnode.Answers.{answers}
use thoth.Topics.Rnode.Lookup.{retained_at}
use thoth.Topics.MemTopics.{
  MemTopics, new_mem_provider, subscribe, unsubscribe, subscribers, retain, retained,
}
use thoth.Topics.MemTopics.Subscriptions.{
  HasPath, subscribers-subscribe, subscribers-unsubscribe, subscribers-eq-hits,
  unsubscribe-subscribe,
}
use thoth.Topics.MemTopics.Invariant.{
  IsMemTopics, Call, subscribes, retains, step, run, new_mem_provider-IsMemTopics, run-IsMemTopics,
}
use thoth.Topics.MemTopics.Retention.{
  retained_at-retain, retained_at-clear, retained-eq-answers, retain_clear_loses_parent,
}
use thoth.Topics.MemTopics.Termination.{calls-IsProper}

abbrev a_level : Bytes
a_level = 97 ∷ []

abbrev b_level : Bytes
b_level = 98 ∷ []

-- "a/b"
abbrev lower_topic : Bytes
lower_topic = 97 ∷ 47 ∷ 98 ∷ []

-- "a/+"
abbrev any_filter : Bytes
any_filter = 97 ∷ 47 ∷ 43 ∷ []

-- "a#"
abbrev bad_filter : Bytes
bad_filter = 97 ∷ 35 ∷ []

a_path : HasPath a_level (a_level ∷ [])
unfolding levels next_topic_level scan round
a_path = refl

lower_path : HasPath lower_topic (a_level ∷ b_level ∷ [])
unfolding levels next_topic_level scan round
lower_path = refl

any_path : HasPath any_filter (a_level ∷ swc ∷ [])
unfolding levels next_topic_level scan round
any_path = refl

abbrev message : Bytes → Bytes → PublishPacket
message topic payload = record {
  message_id = 1;
  topic_name = topic;
  qos = 1;
  retain = true;
  dup = false;
  payload = payload;
}

abbrev calls : List Call
calls =
    subscribes any_filter 1 (Value.pointer 0)
    ∷ retains (message lower_topic (7 ∷ []))
    ∷ subscribes bad_filter 1 (Value.pointer 1)
    ∷ []

abbrev started : MemTopics
started = run calls new_mem_provider

started-IsMemTopics : IsMemTopics started
started-IsMemTopics = run-IsMemTopics calls new_mem_provider new_mem_provider-IsMemTopics

abbrev nothing : Found
nothing = record { subs = []; qoss = [] }

subscribers-subscribe_example :
    let after = subscribe any_filter 2 (Value.pointer 1) started in
    let before = (subscribers lower_topic 1 started nothing).0.subs in
    (after.1 ≡ 2)
    × (after.2 ≡ none)
    × Perm (subscribers lower_topic 1 after.0 nothing).0.subs (
        if matches (a_level ∷ swc ∷ []) (a_level ∷ b_level ∷ [])
          && not (holds (a_level ∷ swc ∷ []) (Value.pointer 1) started.sroot)
        then Value.pointer 1 ∷ before
        else before)
subscribers-subscribe_example =
    subscribers-subscribe any_filter lower_topic (a_level ∷ swc ∷ []) (a_level ∷ b_level ∷ []) 1
      (Value.pointer 1) started nothing any_path lower_path refl refl started-IsMemTopics.snodes 2
      refl

held : holds (a_level ∷ swc ∷ []) (Value.pointer 0) started.sroot ≡ true
unfolding holds run step subscribe sinsert insert_here index_of equal find put levels
    next_topic_level scan round retain
held = refl

subscribers-unsubscribe_example :
    let after = unsubscribe any_filter (Value.pointer 0) started in
    let left = (subscribers lower_topic 1 after.0 nothing).0.subs in
    (after.1 ≡ none)
    × Perm (subscribers lower_topic 1 started nothing).0.subs (
        if matches (a_level ∷ swc ∷ []) (a_level ∷ b_level ∷ [])
        then Value.pointer 0 ∷ left
        else left)
subscribers-unsubscribe_example =
    subscribers-unsubscribe any_filter lower_topic (a_level ∷ swc ∷ []) (a_level ∷ b_level ∷ []) 1
      (Value.pointer 0) started nothing any_path lower_path refl refl started-IsMemTopics.snodes
      held

subscribers-eq-hits_example : subscribers lower_topic 1 started nothing ≡ (
  record {
    subs = hits (a_level ∷ b_level ∷ []) (SnodeEntries.entries started.sroot);
    qoss = map (λ _. 1) (hits (a_level ∷ b_level ∷ []) (SnodeEntries.entries started.sroot));
  },
  none,
)
subscribers-eq-hits_example =
    subscribers-eq-hits lower_topic (a_level ∷ b_level ∷ []) 1 started nothing lower_path refl
      started-IsMemTopics.snodes

run-IsMemTopics_example : IsMemTopics (run calls new_mem_provider)
run-IsMemTopics_example = run-IsMemTopics calls new_mem_provider new_mem_provider-IsMemTopics

calls-IsProper_example :
    IsProper (subscribe bad_filter 1 (Value.pointer 0) started).2
    × IsProper (unsubscribe bad_filter (Value.pointer 0) started).1
    × IsProper (subscribers bad_filter 1 started nothing).1
    × IsProper (retain (message bad_filter []) started).1
    × IsProper (retained bad_filter started []).1
calls-IsProper_example =
    calls-IsProper bad_filter 1 (Value.pointer 0) (message bad_filter []) started nothing []

no_empty : IsPruned new_mem_provider.sroot
no_empty = tt

unsubscribe-subscribe_example :
    unsubscribe any_filter
      (Value.pointer 0)
      (subscribe any_filter 1 (Value.pointer 0) new_mem_provider).0
    ≡ (new_mem_provider, none)
unfolding find
unsubscribe-subscribe_example =
    unsubscribe-subscribe any_filter (a_level ∷ swc ∷ []) 1 (Value.pointer 0) new_mem_provider
      any_path refl refl refl new_snode-IsSnode no_empty (unfold holds in refl)

a≢lower : a_level ∷ [] ≢ a_level ∷ b_level ∷ []
a≢lower h = cc

retained_at-retain_example :
    ((retain (message a_level (8 ∷ [])) started).1 ≡ none)
    × (retained_at (a_level ∷ []) (retain (message a_level (8 ∷ [])) started).0.rroot
        ≡ some (message a_level (8 ∷ [])))
    × (retained_at (a_level ∷ b_level ∷ []) (retain (message a_level (8 ∷ [])) started).0.rroot
        ≡ retained_at (a_level ∷ b_level ∷ []) started.rroot)
    × ((retain (message a_level (8 ∷ [])) started).0.sroot ≡ started.sroot)
retained_at-retain_example =
    retained_at-retain (message a_level (8 ∷ [])) (a_level ∷ []) (a_level ∷ b_level ∷ []) started
      a_path (λ h. cc) a≢lower

retained_at-clear_example :
    (retained_at (a_level ∷ []) (retain (message a_level []) started).0.rroot ≡ none)
    × (retained_at (a_level ∷ b_level ∷ []) (retain (message a_level []) started).0.rroot
        ≡ retained_at (a_level ∷ b_level ∷ []) started.rroot)
retained_at-clear_example =
    retained_at-clear (message a_level []) (a_level ∷ []) (a_level ∷ b_level ∷ []) started a_path
      refl started-IsMemTopics.rnodes (ground arith)

retained-eq-answers_example :
    retained any_filter started []
    ≡ ([] ++ answers (a_level ∷ swc ∷ []) (RnodeAnswers.entries started.rroot), none)
retained-eq-answers_example =
    retained-eq-answers any_filter (a_level ∷ swc ∷ []) started [] any_path
      started-IsMemTopics.rnodes

retain_clear_loses_parent_example :
    let before =
      (retain
        (message lower_topic (7 ∷ []))
        (retain (message a_level (8 ∷ [])) new_mem_provider).0).0 in
    (retained_at (a_level ∷ []) before.rroot ≡ some (message a_level (8 ∷ [])))
    × ((retain (message lower_topic []) before).1 ≡ none)
    × (retained_at (a_level ∷ []) (retain (message lower_topic []) before).0.rroot ≡ none)
retain_clear_loses_parent_example =
    retain_clear_loses_parent (message a_level (8 ∷ [])) (message lower_topic (7 ∷ []))
      (message lower_topic []) a_level b_level new_mem_provider a_path lower_path lower_path
      (λ h. cc) (λ h. cc) refl (unfold find in refl)

next_topic_level-iff-Splits_example :
    (next_topic_level lower_topic ≡ ok (a_level, b_level)) ↔ Splits lower_topic a_level b_level
next_topic_level-iff-Splits_example = next_topic_level-iff-Splits lower_topic a_level b_level
