-- ===== src/Broker/Subscribe/Shares.antt =====
-- The filters of SUBSCRIBE in broker/subscribe.go that start with "$share/".
use thoth.Base.{
  ◌≡◌, ◌↔◌, refl, sym, ap, ◌∙◌, true, false, Option, none, some, [], ◌∷◌, ◌++◌, Bytes,
  Bytes-discrete, length, drop, take-append, ite, if_pos, if◌then◌else◌,
}
use thoth.Broker.Publish.{has_prefix}
use thoth.Broker.Groups.{find_group, IsGroup, find_group-iff-IsGroup}
use thoth.Broker.Subscribe.{share_prefix, shared_of, parse_share}

pub prefixed : (s : Bytes) → has_prefix (share_prefix ++ s) share_prefix ≡ true
prefixed s =
    ap (λ x. ite (Bytes-discrete x share_prefix) true false) (take-append share_prefix s)
    ∙ if_pos (Bytes-discrete share_prefix share_prefix) refl true false

pub drop-append : (p s : Bytes) → drop (length p) (p ++ s) ≡ s
drop-append [] s = refl
drop-append (c ∷ p) s = drop-append p s

pub parse_share-prefixed : (s : Bytes) → parse_share (share_prefix ++ s) ≡ shared_of (find_group s)
unfolding parse_share
parse_share-prefixed s =
    ap
      (λ x.
        if x
        then shared_of (find_group (drop (length share_prefix) (share_prefix ++ s)))
        else some (share_prefix ++ s, false, []))
      (prefixed s)
    ∙ ap (λ x. shared_of (find_group x)) (drop-append share_prefix s)

of_found :
    (o : Option (Bytes × Bytes)) (name topic : Bytes)
    → shared_of o ≡ some (topic, true, name)
    → o ≡ some (name, topic)
of_found none name topic e = cc
of_found (some (n, t)) name topic e = cc

-- A filter that starts with "$share/" is read as the shared subscription of a group to a topic exactly if the
-- rest of it is the name of that group, a "/" and that topic, where a name has at least one byte, each a letter, a
-- digit, "_" or "-", and the topic has no newline.
pub parse_share-iff-IsGroup :
    (s name topic : Bytes)
    → (parse_share (share_prefix ++ s) ≡ some (topic, true, name)) ↔ IsGroup s name topic
parse_share-iff-IsGroup s name topic = (
  λ e.
      (find_group-iff-IsGroup s name topic).0
        (of_found (find_group s) name topic (sym (parse_share-prefixed s) ∙ e)),
  λ h. parse_share-prefixed s ∙ ap shared_of ((find_group-iff-IsGroup s name topic).1 h),
)
