-- ===== src/Topics/MemTopics/Retention.antt =====
-- What the retained messages are to a client of the provider.
use thoth.Base.{
  ◌≡◌, ◌≢◌, refl, ap, ◌∙◌, true, false, none, some, List, [], ◌∷◌, ◌++◌, arith, Bytes, length, ◌==◌,
}
use thoth.Packets.{PublishPacket}
use thoth.Topics.Levels.{of_path, levels-IsFilter}
use thoth.Topics.Trie.{nodes, find}
use thoth.Topics.Rnode.Levels.{
  insert_at, remove_from, match_at, rinsert-eq-insert_at, rremove-eq-remove_from,
  rmatch-eq-match_at,
}
use thoth.Topics.Rnode.Lookup.{
  IsRnode, retained_at, insert_at-none, retained-insert_at_self, retained-insert_at_ne,
}
use thoth.Topics.Rnode.Clear.{is_prefix, retained-remove_from_self, retained-remove_from_ne}
use thoth.Topics.Rnode.Answers.{entries, answers}
use thoth.Topics.Rnode.Search.{match_at-answers}
use thoth.Topics.Rnode.Parent.{remove_from-parent}
use thoth.Topics.MemTopics.{MemTopics, fuel, retain, retained}
use thoth.Topics.MemTopics.Subscriptions.{HasPath}

-- The subscriptions are left alone.
pub retain-sroot : (packet : PublishPacket) (t : MemTopics) → (retain packet t).0.sroot ≡ t.sroot
unfolding retain
retain-sroot packet t = ground arith

length-ne-zero : (xs : Bytes) → xs ≢ [] → (length xs == 0) ≡ false
length-ne-zero [] h = absurd (h refl)
length-ne-zero (x ∷ xs) h = ground arith

length-zero : (xs : Bytes) → xs ≡ [] → (length xs == 0) ≡ true
length-zero xs h = rw h

retain-insert :
    (msg : PublishPacket) (path : List Bytes) (t : MemTopics)
    → HasPath msg.topic_name path
    → msg.payload ≢ []
    → retain msg t ≡ (record t { rroot = (insert_at (of_path path) msg t.rroot).0 }, none)
unfolding retain
retain-insert msg path t h c = rw (
  length-ne-zero msg.payload c,
  retain,
  rinsert-eq-insert_at (fuel msg.topic_name) msg.topic_name msg t.rroot,
  h,
  insert_at-none path msg t.rroot,
)

retain-remove :
    (msg : PublishPacket) (path : List Bytes) (t : MemTopics)
    → HasPath msg.topic_name path
    → msg.payload ≡ []
    → retain msg t ≡ (
      record t { rroot = (remove_from (of_path path) t.rroot).0 },
      (remove_from (of_path path) t.rroot).1,
    )
unfolding retain
retain-remove msg path t h c = rw (
  length-zero msg.payload c,
  retain,
  rremove-eq-remove_from (fuel msg.topic_name) msg.topic_name t.rroot,
  h,
)

-- Retaining a message with a payload on a topic without an error is no error, makes it the message
-- of its topic, and leaves the message of any other topic and the subscriptions as they are.
pub retained_at-retain :
    (msg : PublishPacket) (path other : List Bytes) (t : MemTopics)
    → HasPath msg.topic_name path
    → msg.payload ≢ []
    → path ≢ other
    → ((retain msg t).1 ≡ none)
      × (retained_at path (retain msg t).0.rroot ≡ some msg)
      × (retained_at other (retain msg t).0.rroot ≡ retained_at other t.rroot)
      × ((retain msg t).0.sroot ≡ t.sroot)
retained_at-retain msg path other t h c n = rw (retain-insert msg path t h c) (
  refl,
  retained-insert_at_self path msg t.rroot,
  retained-insert_at_ne path other msg t.rroot n,
  refl,
)

-- A message with no payload clears the message of its topic, if that has no error and the tree is
-- well-formed, and leaves that of any topic that is neither its topic nor above it.
pub retained_at-clear :
    (msg : PublishPacket) (path other : List Bytes) (t : MemTopics)
    → HasPath msg.topic_name path
    → msg.payload ≡ []
    → IsRnode t.rroot
    → is_prefix other path ≡ false
    → (retained_at path (retain msg t).0.rroot ≡ none)
      × (retained_at other (retain msg t).0.rroot ≡ retained_at other t.rroot)
retained_at-clear msg path other t h c w n =
    rw (retain-remove msg path t h c)
      (retained-remove_from_self path t.rroot w, retained-remove_from_ne path other t.rroot w n)

-- In a well-formed tree, a search with a filter without an error returns no error, and appends the
-- retained messages of exactly the topics that the filter matches.
pub retained-eq-answers :
    (filter : Bytes) (path : List Bytes) (t : MemTopics) (msgs : List PublishPacket)
    → HasPath filter path
    → IsRnode t.rroot
    → retained filter t msgs ≡ (msgs ++ answers path (entries t.rroot), none)
unfolding retained
retained-eq-answers filter path t msgs h w =
    rmatch-eq-match_at (fuel filter) filter t.rroot msgs
    ∙ ap (λ l. match_at l t.rroot msgs) h
    ∙ match_at-answers path t.rroot msgs (levels-IsFilter (fuel filter) filter path h) w

-- Where the tree has no node for a topic of one level, a message is retained on that topic, and then
-- one on a topic one level below. Clearing the lower topic is no error, and loses the message of
-- the upper topic too, which was there before.
pub retain_clear_loses_parent :
    (upper lower clear : PublishPacket) (a b : Bytes) (t : MemTopics)
    → HasPath upper.topic_name (a ∷ [])
    → HasPath lower.topic_name (a ∷ b ∷ [])
    → HasPath clear.topic_name (a ∷ b ∷ [])
    → upper.payload ≢ []
    → lower.payload ≢ []
    → clear.payload ≡ []
    → find a (nodes t.rroot) ≡ none
    → let before = (retain lower (retain upper t).0).0 in
      (retained_at (a ∷ []) before.rroot ≡ some upper)
      × ((retain clear before).1 ≡ none)
      × (retained_at (a ∷ []) (retain clear before).0.rroot ≡ none)
retain_clear_loses_parent upper lower clear a b t hu hl hc cu cl cc' e =
    rw
      (
        retain-insert upper (a ∷ []) t hu cu,
        retain-insert lower (a ∷ b ∷ []) _ hl cl,
        retain-remove clear (a ∷ b ∷ []) _ hc cc',
      )
      (remove_from-parent a b upper lower t.rroot e)
