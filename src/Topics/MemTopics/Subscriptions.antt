-- ===== src/Topics/MemTopics/Subscriptions.antt =====
-- What the subscriptions are to a client of the provider: entries, added by `Subscribe`, taken
-- away by `Unsubscribe`, and found by `Subscribers` where their filter matches.
use mathlib.Core.List.{Perm, filter_map}
use mathlib.Core.List.Perm
use thoth.Base.{
  ℕ, ◌≡◌, ◌≢◌, refl, ap, ◌∙◌, inl, inr, true, false, not, ◌&&◌, Option, none, some, List, [], ◌∷◌,
  map, arith, Bytes, if◌then◌else◌, Bool-cases,
}
use thoth.Topics.Levels.{levels, of_path}
use thoth.Topics.Matching.{matches}
use thoth.Topics.Value.{Value, is_func}
use thoth.Topics.Snode.Levels.{
  insert_at, remove_from, match_at, sinsert-eq-insert_at, sremove-eq-remove_from,
  smatch-eq-match_at,
}
use thoth.Topics.Snode.Entries.{Entry, entries, holds}
use thoth.Topics.Snode.Insert.{insert_at-none, insert_at-entries_new, insert_at-entries_old}
use thoth.Topics.Snode.Remove.{remove_from-entries, remove_from-error}
use thoth.Topics.Snode.Match.{hits, found}
use thoth.Topics.Snode.Search.{match_at-eq-found}
use thoth.Topics.Snode.Shape.{IsSnode, insert_at-IsSnode, remove_from-IsSnode}
use thoth.Topics.Snode.Pruned.{IsPruned}
use thoth.Topics.Snode.RoundTrip.{remove_from-insert_at}
use thoth.Topics.Snode.{Snode, Found}
use thoth.Topics.MemTopics.{
  MemTopics, valid_qos, fuel, is_nil_value, subscribe, unsubscribe, subscribers,
}

abbrev no_found : Found
no_found = record { subs = []; qoss = [] }

-- The topic splits into these levels without an error.
abbrev pub HasPath : Bytes → List Bytes → Type 0
HasPath topic path = levels (fuel topic) topic ≡ of_path path

pick : List Bytes → Entry → Option Value
pick ts e = if matches e.0 ts then some e.1 else none

hits-eq-filter_map : (ts : List Bytes) (es : List Entry) → hits ts es ≡ filter_map (pick ts) es
unfolding hits pick filter_map
hits-eq-filter_map ts [] = refl
hits-eq-filter_map ts (e ∷ es) = elim (Bool-cases (matches e.0 ts)) [
  | inl b ↦ rw b (ap (◌∷◌ e.1) (hits-eq-filter_map ts es))
  | inr b ↦ rw b (hits-eq-filter_map ts es)
]

-- What is found does not depend on the order of the entries.
hits-perm : (ts : List Bytes) {es fs : List Entry} → Perm es fs → Perm (hits ts es) (hits ts fs)
hits-perm ts {es} {fs} p =
    rw (hits-eq-filter_map ts es, hits-eq-filter_map ts fs) (Perm.filter_map (pick ts) p)

pub subscribe-lem :
    (filter : Bytes) (p : List Bytes) (granted : ℕ) (sub : Value) (t : MemTopics)
    → HasPath filter p
    → valid_qos granted ≡ true
    → is_nil_value sub ≡ false
    → subscribe filter granted sub t
      ≡ (record t { sroot = (insert_at (of_path p) granted sub t.sroot).0 }, granted, none)
unfolding subscribe
subscribe-lem filter p granted sub t h v c = ground (
  arith,
  sinsert-eq-insert_at (fuel filter) filter granted sub t.sroot,
  insert_at-none p granted sub t.sroot,
)

pub unsubscribe-lem :
    (filter : Bytes) (p : List Bytes) (sub : Value) (t : MemTopics)
    → HasPath filter p
    → unsubscribe filter sub t ≡ (
      record t { sroot = (remove_from (of_path p) sub t.sroot).0 },
      (remove_from (of_path p) sub t.sroot).1,
    )
unfolding unsubscribe
unsubscribe-lem filter p sub t h = rw (sremove-eq-remove_from (fuel filter) filter sub t.sroot, h)

-- In a well-formed tree, `Subscribers` on a topic that splits into levels without an error and with a valid
-- QoS returns the subscribers of exactly the entries whose levels match those levels, each with
-- the QoS asked for, and no error.
pub subscribers-eq-hits :
    (topic : Bytes) (q : List Bytes) (qos : ℕ) (t : MemTopics) (out : Found)
    → HasPath topic q
    → valid_qos qos ≡ true
    → IsSnode t.sroot
    → subscribers topic qos t out ≡ (
      record { subs = hits q (entries t.sroot); qoss = map (λ _. qos) (hits q (entries t.sroot)) },
      none,
    )
unfolding subscribers found
subscribers-eq-hits topic q qos t out h v w =
    rw (v, subscribers)
      (smatch-eq-match_at (fuel topic) topic qos t.sroot no_found
        ∙ ap (λ l. match_at l qos t.sroot no_found) h
        ∙ match_at-eq-found q qos t.sroot no_found w)

hits-entry :
    (p q : List Bytes) (sub : Value) (es : List Entry)
    → hits q ((p, sub) ∷ es) ≡ (if matches p q then sub ∷ hits q es else hits q es)
unfolding hits
hits-entry p q sub es = refl

ne-nil : (sub : Value) → is_nil_value sub ≡ false → sub ≢ Value.nil
ne-nil sub h e = ground arith

hits-insert_at :
    (p q : List Bytes) (granted : ℕ) (sub : Value) (n : Snode)
    → Perm (hits q (entries (insert_at (of_path p) granted sub n).0)) (
        if matches p q && not (holds p sub n) then sub ∷ hits q (entries n) else hits q (entries n))
hits-insert_at p q granted sub n = elim (Bool-cases (holds p sub n)) [
  | inl h ↦
      rw (h, insert_at-entries_old p granted sub n h)
        (elim (Bool-cases (matches p q)) [
          | inl b ↦ rw b (Perm.refl (hits q (entries n)))
          | inr b ↦ rw b (Perm.refl (hits q (entries n)))
        ])
  | inr h ↦ rw h (
      Perm.trans (hits-perm q (insert_at-entries_new p granted sub n h))
        (elim (Bool-cases (matches p q)) [
          | inl b ↦ rw b (unfold hits in rw (b, hits) (Perm.refl (sub ∷ hits q (entries n))))
          | inr b ↦ rw b (unfold hits in rw (b, hits) (Perm.refl (hits q (entries n))))
        ]))
]

module _ (filter topic : Bytes) (p q : List Bytes) (qos : ℕ) (sub : Value) (t : MemTopics)
    (out : Found) (parsed : HasPath filter p) (split : HasPath topic q)
    (valid : valid_qos qos ≡ true) (present : is_nil_value sub ≡ false)
    (shaped : IsSnode t.sroot) where
  -- In a well-formed tree, with a filter and a topic without errors and valid QoS, subscribing a
  -- value that is not nil succeeds; then a search for the topic finds that subscriber once more
  -- exactly if the filter matches the topic and it did not stand at the filter, and otherwise the
  -- same subscribers, up to their order.
  pub subscribers-subscribe :
      (granted : ℕ)
      → valid_qos granted ≡ true
      → let after = subscribe filter granted sub t in
        let before = (subscribers topic qos t out).0.subs in
        (after.1 ≡ granted)
        × (after.2 ≡ none)
        × Perm
            (subscribers topic qos after.0 out).0.subs
            (if matches p q && not (holds p sub t.sroot) then sub ∷ before else before)
  subscribers-subscribe granted v = rw (subscribe-lem filter p granted sub t parsed v present) (
    refl,
    refl,
    rw
        (
          subscribers-eq-hits topic q qos t out split valid shaped,
          subscribers-eq-hits topic q qos
              (record t { sroot = (insert_at (of_path p) granted sub t.sroot).0 }) out split valid
              (insert_at-IsSnode (of_path p) granted sub t.sroot shaped),
        )
        (hits-insert_at p q granted sub t.sroot),
  )

  -- In a well-formed tree, with a filter and a topic without errors and a valid QoS, unsubscribing a
  -- value that is not nil and stands at the filter succeeds, and takes it once from what a search
  -- for the topic finds exactly if the filter matches the topic; the order aside, the rest stays.
  pub subscribers-unsubscribe :
      holds p sub t.sroot ≡ true
      → let after = unsubscribe filter sub t in
        let left = (subscribers topic qos after.0 out).0.subs in
        (after.1 ≡ none)
        × Perm (subscribers topic qos t out).0.subs (if matches p q then sub ∷ left else left)
  subscribers-unsubscribe h =
      let gone = remove_from-entries p sub t.sroot (ne-nil sub present) h in
      rw (unsubscribe-lem filter p sub t parsed) (
        gone.0,
        rw
            (
              subscribers-eq-hits topic q qos t out split valid shaped,
              subscribers-eq-hits topic q qos
                  (record t { sroot = (remove_from (of_path p) sub t.sroot).0 }) out split valid
                  (remove_from-IsSnode (of_path p) sub t.sroot shaped),
            )
            (rw (← hits-entry p q sub (entries (remove_from (of_path p) sub t.sroot).0))
              (hits-perm q gone.1)),
      )

-- In a well-formed tree without empty nodes, unsubscribing a value (neither nil nor a function)
-- right after it was subscribed with a valid QoS, at a filter without an error where it did not
-- stand, gives the provider back as it was, without an error.
pub unsubscribe-subscribe :
    (filter : Bytes) (p : List Bytes) (granted : ℕ) (sub : Value) (t : MemTopics)
    → HasPath filter p
    → valid_qos granted ≡ true
    → is_nil_value sub ≡ false
    → is_func sub ≡ false
    → IsSnode t.sroot
    → IsPruned t.sroot
    → holds p sub t.sroot ≡ false
    → unsubscribe filter sub (subscribe filter granted sub t).0 ≡ (t, none)
unsubscribe-subscribe filter p granted sub t h v c f w u n =
    rw (subscribe-lem filter p granted sub t h v c) (
      unsubscribe-lem filter p sub _ h
      ∙ ap (λ o. (record t { sroot = o.0 }, o.1))
          (remove_from-insert_at p granted sub t.sroot w u f (ne-nil sub c) n))

-- An `Unsubscribe` that returns an error, also on a malformed filter, has changed nothing.
pub unsubscribe_error :
    (filter : Bytes) (sub : Value) (t : MemTopics)
    → (unsubscribe filter sub t).1 ≢ none
    → (unsubscribe filter sub t).0 ≡ t
unfolding unsubscribe
unsubscribe_error filter sub t h =
    ap (λ n. record t { sroot = n })
      (ap (λ o. o.0) (sremove-eq-remove_from (fuel filter) filter sub t.sroot)
        ∙ remove_from-error (levels (fuel filter) filter) sub t.sroot
            (λ e. h (ap (λ o. o.1) (sremove-eq-remove_from (fuel filter) filter sub t.sroot) ∙ e)))
