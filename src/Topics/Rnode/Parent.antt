-- ===== src/Topics/Rnode/Parent.antt =====
-- Why clearing a topic can lose the message of the topic above: `rremove` deletes a node that has
-- no node below it, and does not ask whether it has a message.
use thoth.Base.{◌≡◌, refl, ap, none, some, [], ◌∷◌, Bytes}
use thoth.Packets.{PublishPacket}
use thoth.Topics.Levels.{done, level}
use thoth.Topics.Trie.{Nodes, node, nil, cons, nodes, find, put}
use thoth.Topics.Trie.Laws.{find-put_self, find_hit, put-put, delete_hit, delete-put_new}
use thoth.Topics.Rnode.Levels.{insert_at, remove_from}
use thoth.Topics.Rnode.Lookup.{retained_at}
use thoth.Topics.Rnode.{Msg, Rnode}

module _ (a b : Bytes) (upper lower : PublishPacket) (m : Msg) (ks : Nodes Msg)
    (new : find a ks ≡ none) where
  alone : Rnode
  alone = node (some upper) nil

  both : Rnode
  both = node (some upper) (cons b (node (some lower) nil) nil)

  insert_upper : insert_at (level a done) upper (node m ks) ≡ (node m (put a alone ks), none)
  unfolding insert_at alone
  insert_upper = rw (new, insert_at)

  insert_lower :
      (insert_at (level a (level b done)) lower (node m (put a alone ks))).0
      ≡ node m (put a both ks)
  unfolding insert_at
  insert_lower =
      rw (find-put_self a alone ks, insert_at)
        (unfold alone both find put in ap (node m) (put-put a both alone ks))

  find-both : find a (put a both ks) ≡ some both
  find-both = find-put_self a both ks

  remove_lower : remove_from (level a (level b done)) (node m (put a both ks)) ≡ (node m ks, none)
  unfolding remove_from
  remove_lower =
      rw (find-both, remove_from)
        (unfold both in
          rw
            (
              find_hit {k = b} {l = b} (node (some lower) nil) nil refl,
              delete_hit {k = b} {l = b} (node (some lower) nil) nil refl,
            )
            (ap (λ js. (node m js, none)) (delete-put_new a both ks new)))

  both-retained : retained_at (a ∷ []) (node m (put a both ks)) ≡ some upper
  unfolding retained_at
  both-retained = rw (find-both, retained_at) (unfold both in refl)

  none-retained : retained_at (a ∷ []) (node m ks) ≡ none
  unfolding retained_at
  none-retained = rw (new, retained_at)

-- The message above is there before the removal below it, and not after it.
pub remove_from-parent :
    (a b : Bytes) (upper lower : PublishPacket) (n : Rnode)
    → find a (nodes n) ≡ none
    → let before =
        (insert_at (level a (level b done)) lower (insert_at (level a done) upper n).0).0 in
      (retained_at (a ∷ []) before ≡ some upper)
      × ((remove_from (level a (level b done)) before).1 ≡ none)
      × (retained_at (a ∷ []) (remove_from (level a (level b done)) before).0 ≡ none)
remove_from-parent a b upper lower (node m ks) e =
    rw
      (
        insert_upper a b upper lower m ks e,
        insert_lower a b upper lower m ks e,
        remove_lower a b upper lower m ks e,
      )
      (both-retained a b upper lower m ks e, refl, none-retained a b upper lower m ks e)
